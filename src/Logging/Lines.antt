-- ===== src/Logging/Lines.antt =====
-- The lines of the log.
use nfs_client_simulator.Common.{
  ℕ, ◌≤◌, ◌≡◌, refl, sym, length, ap, ◌∙◌, List, [], ◌∷◌, ◌++◌, append_assoc, append-nil, Bool,
  true, false, ◌&&◌, not, leb, ◌==◌, if◌then◌else◌, Bool-cases, inl, inr, le→leb, leb→le,
}
use nfs_client_simulator.Text.{codes}
use nfs_client_simulator.Logging.{
  DebugLogger, Place, header, critical, make_logger, Argument, text, boolean, manipulator, stream,
  insert, insert_buffer, put, put_all, destroy_logger, test_debug_log, debug_log,
}

-- What an argument adds to a line.
abbrev pub shown : Argument → List ℕ
shown (text arg) = b' ' ∷ arg
shown (stream arg) = b' ' ∷ arg
shown (boolean true) = codes " true"
shown (boolean false) = codes " false"
shown (manipulator appended) = appended

-- A stringstream without bytes makes the stream of the logger fail.
abbrev pub silences : Argument → Bool
silences (text arg) = false
silences (stream arg) = length arg == 0
silences (boolean value) = false
silences (manipulator appended) = false

abbrev pub shown_all : List Argument → List ℕ
shown_all [] = []
shown_all (arg ∷ args) = shown arg ++ (if silences arg then [] else shown_all args)

put-shown :
    (global : ℕ) (ss : List ℕ) (level : ℕ) (arg : Argument)
    → global ≤ level
    → put global (record { ss = ss; is_failed = false; log_level = level }) arg
      ≡ record { ss = ss ++ shown arg; is_failed = silences arg; log_level = level }
unfolding put insert insert_buffer
put-shown global ss level (text arg) h =
    rw (le→leb global level h, append_assoc ss (codes " ") arg) refl
put-shown global ss level (stream arg) h =
    rw (le→leb global level h, append_assoc ss (codes " ") arg) refl
put-shown global ss level (boolean true) h =
    rw (le→leb global level h, append_assoc ss (codes " ") (codes "true")) refl
put-shown global ss level (boolean false) h =
    rw (le→leb global level h, append_assoc ss (codes " ") (codes "false")) refl
put-shown global ss level (manipulator appended) h = refl

put_failed :
    (global : ℕ) (ss : List ℕ) (level : ℕ) (arg : Argument)
    → global ≤ level
    → put global (record { ss = ss; is_failed = true; log_level = level }) arg
      ≡ record { ss = ss; is_failed = true; log_level = level }
unfolding put insert insert_buffer
put_failed global ss level (text arg) h = rw (le→leb global level h) refl
put_failed global ss level (stream arg) h = rw (le→leb global level h) refl
put_failed global ss level (boolean value) h = rw (le→leb global level h) refl
put_failed global ss level (manipulator appended) h = refl

put_all_failed :
    (global : ℕ) (ss : List ℕ) (level : ℕ) (args : List Argument)
    → global ≤ level
    → put_all global (record { ss = ss; is_failed = true; log_level = level }) args
      ≡ record { ss = ss; is_failed = true; log_level = level }
unfolding put_all
put_all_failed global ss level [] h = refl
put_all_failed global ss level (arg ∷ args) h =
    ap (λ l. put_all global l args) (put_failed global ss level arg h)
    ∙ put_all_failed global ss level args h

pub put_all-shown_all :
    (global : ℕ) (ss : List ℕ) (level : ℕ) (args : List Argument)
    → global ≤ level
    → (put_all global (record { ss = ss; is_failed = false; log_level = level }) args).ss
      ≡ ss ++ shown_all args
unfolding put_all
put_all-shown_all global ss level [] h = rw (append-nil ss) refl
put_all-shown_all global ss level (arg ∷ args) h =
    ap (λ l. (put_all global l args).ss) (put-shown global ss level arg h)
    ∙ elim (Bool-cases (silences arg)) [
      | inl e ↦ rw e (
          ap (λ l. l.ss) (put_all_failed global (ss ++ shown arg) level args h)
          ∙ ap (λ t. ss ++ t) (sym (append-nil (shown arg))))
      | inr e ↦ rw e (
          put_all-shown_all global (ss ++ shown arg) level args h
          ∙ append_assoc ss (shown arg) (shown_all args))
    ]

-- No logger changes its level.
if_level :
    (b : Bool) (l l' : DebugLogger)
    → l'.log_level ≡ l.log_level
    → (if b then l' else l).log_level ≡ l.log_level
if_level true l l' e = e
if_level false l l' e = refl

insert_level :
    (logger : DebugLogger) (arg : List ℕ) → (insert logger arg).log_level ≡ logger.log_level
unfolding insert
insert_level logger arg = elim (Bool-cases logger.is_failed) [
  | inl e ↦ rw e refl
  | inr e ↦ rw e refl
]

insert_buffer_level :
    (logger : DebugLogger) (arg : List ℕ) → (insert_buffer logger arg).log_level ≡ logger.log_level
unfolding insert_buffer
insert_buffer_level logger arg = elim (Bool-cases logger.is_failed) [
  | inl e ↦ rw e refl
  | inr e ↦ rw e refl
]

and_true : (a b : Bool) → b ≡ true → (a && b) ≡ a
and_true true b e = e
and_true false b e = refl

put_level :
    (global : ℕ) (logger : DebugLogger) (arg : Argument)
    → (put global logger arg).log_level ≡ logger.log_level
unfolding put
put_level global logger (text arg) =
    if_level (leb global logger.log_level) logger _
      (insert_level (insert logger (codes " ")) arg ∙ insert_level logger (codes " "))
put_level global logger (stream arg) =
    if_level (leb global logger.log_level) logger _
      (insert_buffer_level (insert logger (codes " ")) arg ∙ insert_level logger (codes " "))
put_level global logger (boolean value) =
    if_level (leb global logger.log_level) logger _
      (insert_level (insert logger (codes " ")) _ ∙ insert_level logger (codes " "))
put_level global logger (manipulator appended) = insert_level logger appended

pub put_all_level :
    (global : ℕ) (logger : DebugLogger) (args : List Argument)
    → (put_all global logger args).log_level ≡ logger.log_level
unfolding put_all
put_all_level global logger [] = refl
put_all_level global logger (arg ∷ args) =
    put_all_level global (put global logger arg) args ∙ put_level global logger arg

-- The statements whose level is not below the global one.
logged :
    (global : ℕ) (at : Place) (print_header : Bool) (level : ℕ) (args : List Argument)
    → global ≤ level
    → destroy_logger global (put_all global (make_logger global at print_header level) args)
      ≡ (if print_header && not (level == critical) then header at else [])
        ++ shown_all args
        ++ b'\n' ∷ []
unfolding make_logger destroy_logger
logged global at print_header level args h =
    let e : leb global level ≡ true = le→leb global level h in
    let start : (print_header && not (level == critical) && true)
        ≡ (print_header && not (level == critical)) =
      and_true (print_header && not (level == critical)) true refl in
    let same = put_all_level global (make_logger global at print_header level) args in
    rw (same, e, start, put_all-shown_all) refl

not_logged :
    (global : ℕ) (at : Place) (print_header : Bool) (level : ℕ) (args : List Argument)
    → leb global level ≡ false
    → destroy_logger global (put_all global (make_logger global at print_header level) args) ≡ []
unfolding make_logger destroy_logger
not_logged global at print_header level args e =
    let same = put_all_level global (make_logger global at print_header level) args in
    rw (same, e) refl

flip : (b : Bool) (t : List ℕ) → (if not b then t else []) ≡ (if b then [] else t)
flip true t = refl
flip false t = refl

-- A DEBUG_LOG statement prints nothing if its level is below the global one. Else it prints one line: the
-- header, unless its level is CRITICAL, and the arguments in their order, each behind a space, but for
-- manipulators, up to the first stringstream without bytes, behind which nothing is printed but the end of
-- the line. A TEST_DEBUG_LOG statement prints the same without the header.
pub debug_log_lem :
    (global : ℕ) (at : Place) (level : ℕ) (args : List Argument)
    → (debug_log global at level args ≡ (
        if leb global level
        then (if level == critical then [] else header at) ++ shown_all args ++ b'\n' ∷ []
        else []))
      × (test_debug_log global at level args
          ≡ (if leb global level then shown_all args ++ b'\n' ∷ [] else []))
unfolding debug_log test_debug_log
debug_log_lem global at level args = elim (Bool-cases (leb global level)) [
  | inl e ↦
      let h = leb→le global level e in
      rw e (
        logged global at true level args h
            ∙ ap (λ t. t ++ shown_all args ++ b'\n' ∷ []) (flip (level == critical) (header at)),
        logged global at false level args h,
      )
  | inr e ↦ rw e (refl, not_logged global at false level args e)
]
