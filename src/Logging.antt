-- ===== src/Logging.antt =====
-- logging/: the levels of the log, a logger and the statements that use it. What std::cout has been given is
-- a list of bytes, the result of the statement.
pub mod Lines
pub mod Moved
use nfs_client_simulator.Common.{
  ℕ, ◌+◌, ◌-◌, ◌^◌, List, [], ◌∷◌, ◌++◌, Bool, true, false, ◌&&◌, not, ltb, leb, ◌==◌,
  if◌then◌else◌, length, replicate,
}
use nfs_client_simulator.Text.{codes, decimal}

-- The macros INFO to CORRECTNESS. TRACE is also where currentGlobalLogLevel starts.
abbrev pub info : ℕ
info = 1

abbrev pub trace : ℕ
trace = 2

abbrev pub debug : ℕ
debug = 3

abbrev pub critical : ℕ
critical = 4

abbrev pub warning : ℕ
warning = 5

abbrev pub correctness : ℕ
correctness = 6

-- currentGlobalLogLevel, and what the constructor of globalLogLevel sets it to.
abbrev pub current_global_log_level : ℕ
current_global_log_level = trace

unfoldable pub set_global_log_level : ℕ → ℕ → ℕ
set_global_log_level old log_level = log_level

-- class debugLogger. `ss` is what its stream holds; a stream that has failed takes nothing more.
pub record DebugLogger : Type 0 where
  pub ss : List ℕ
  pub is_failed : Bool
  pub log_level : ℕ

-- A text in a field of some width, at its left or at its right end.
abbrev pub left_in : ℕ → List ℕ → List ℕ
left_in width text = text ++ replicate (width - length text) b' '

abbrev pub right_in : ℕ → List ℕ → List ℕ
right_in width text = replicate (width - length text) b' ' ++ text

-- What a statement is about: the place in the sources, and the thread.
pub record Place : Type 0 where
  pub file : List ℕ
  pub line : ℕ
  pub func_name : List ℕ
  pub thread_id : ℕ

-- The header of a line.
unfoldable pub header : Place → List ℕ
header at =
    left_in 18 (at.file ++ codes ":" ++ decimal at.line)
    ++ right_in 20 at.func_name
    ++ codes " Thread: "
    ++ right_in 5 (decimal at.thread_id)

-- The constructor.
unfoldable pub make_logger : ℕ → Place → Bool → ℕ → DebugLogger
make_logger global at print_header log_level = record {
  ss =
      if print_header && not (log_level == critical) && leb global log_level then header at else [];
  is_failed = false;
  log_level = log_level;
}

-- What is put into a logger: a text or a number as `<<` prints it, the bytes that are left in a stringstream,
-- a Boolean, or a manipulator, which appends something.
pub data Argument : Type 0 where
  text : List ℕ → Argument
  stream : List ℕ → Argument
  boolean : Bool → Argument
  manipulator : List ℕ → Argument

unfoldable pub insert : DebugLogger → List ℕ → DebugLogger
insert logger arg = if logger.is_failed then logger else record logger { ss = logger.ss ++ arg }

-- The output of another stream's buffer sets the failbit where it finds no bytes.
unfoldable pub insert_buffer : DebugLogger → List ℕ → DebugLogger
insert_buffer logger arg =
    if logger.is_failed
    then logger
    else record logger { ss = logger.ss ++ arg; is_failed = length arg == 0 }

-- The operators <<.
unfoldable pub put : ℕ → DebugLogger → Argument → DebugLogger
put global logger (text arg) =
    if leb global logger.log_level then insert (insert logger (codes " ")) arg else logger
put global logger (stream arg) =
    if leb global logger.log_level then insert_buffer (insert logger (codes " ")) arg else logger
put global logger (boolean value) =
    if leb global logger.log_level
    then insert (insert logger (codes " ")) (if value then codes "true" else codes "false")
    else logger
put global logger (manipulator appended) = insert logger appended

unfoldable pub put_all : ℕ → DebugLogger → List Argument → DebugLogger
put_all global logger [] = logger
put_all global logger (arg ∷ args) = put_all global (put global logger arg) args

-- The destructor: the line that it prints.
unfoldable pub destroy_logger : ℕ → DebugLogger → List ℕ
destroy_logger global logger = if leb global logger.log_level then logger.ss ++ b'\n' ∷ [] else []

-- The macros, as they head a statement with the arguments that it puts. The compiler may make the
-- logger of debug_log in place, without a move; then this is what they print.
unfoldable pub test_debug_log : ℕ → Place → ℕ → List Argument → List ℕ
test_debug_log global at level args =
    destroy_logger global (put_all global (make_logger global at false level) args)

unfoldable pub debug_log : ℕ → Place → ℕ → List Argument → List ℕ
debug_log global at level args =
    if leb global level
    then destroy_logger global (put_all global (make_logger global at true level) args)
    else []

-- The move constructor does not initialise the level: it is what the memory held.
unfoldable pub move_logger : DebugLogger → ℕ → DebugLogger
move_logger other uninitialised = record {
  ss = other.ss;
  is_failed = other.is_failed;
  log_level = uninitialised;
}

-- A DEBUG_LOG statement where debug_log moves its logger into the result: the logger of debug_log is destroyed
-- before the arguments are put, with what is left in a stream that has been moved from.
unfoldable pub moved_debug_log : ℕ → Place → ℕ → List Argument → List ℕ → ℕ → List ℕ
moved_debug_log global at level args left uninitialised =
    if leb global level
    then (let logger = make_logger global at true level in
        destroy_logger global (record logger { ss = left })
        ++ destroy_logger global (put_all global (move_logger logger uninitialised) args))
    else []
