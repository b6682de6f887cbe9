-- ===== src/Logging/Moved.antt =====
-- A statement of the log whose logger is moved.
use nfs_client_simulator.Common.{
  ℕ, ◌≡◌, refl, append_assoc, List, [], ◌∷◌, ◌++◌, true, false, not, leb, ◌==◌, if◌then◌else◌,
  Bool-cases, inl, inr, leb→le,
}
use nfs_client_simulator.Logging.{
  DebugLogger, Place, header, critical, make_logger, Argument, put_all, destroy_logger, move_logger,
  moved_debug_log,
}
use nfs_client_simulator.Logging.Lines.{shown_all, put_all-shown_all, put_all_level}

module _ (global : ℕ) (at : Place) (level : ℕ) (above : leb global level ≡ true) where
  head : List ℕ
  head = if not (level == critical) then header at else []

  made :
      make_logger global at true level ≡ record { ss = head; is_failed = false; log_level = level }
  unfolding make_logger head
  made = elim (Bool-cases (level == critical)) [ inl e ↦ rw e refl | inr e ↦ rw (e, above) refl ]

  old_line :
      (left : List ℕ)
      → destroy_logger global (record (make_logger global at true level) { ss = left })
        ≡ left ++ b'\n' ∷ []
  unfolding destroy_logger
  old_line left = rw (made, above, destroy_logger) refl

  new_line :
      (args : List Argument) (uninitialised : ℕ)
      → destroy_logger global
          (put_all global (move_logger (make_logger global at true level) uninitialised) args)
        ≡ (if leb global uninitialised then head ++ shown_all args ++ b'\n' ∷ [] else [])
  unfolding destroy_logger move_logger
  new_line args uninitialised =
      let moved : DebugLogger = record {
        ss = head;
        is_failed = false;
        log_level = uninitialised;
      } in
      let same = put_all_level global moved args in
      elim (Bool-cases (leb global uninitialised)) [
        | inl e ↦
            rw
              (
                made,
                same,
                e,
                put_all-shown_all global head uninitialised args (leb→le global uninitialised e),
              )
              refl
        | inr e ↦ rw (made, same, e) refl
      ]

-- Where the logger is moved, a DEBUG_LOG statement whose level is not below the global one first prints a line of
-- what the move has left, and then its own line if and only if the level that nothing has initialised
-- happens not to be below the global one.
moved_debug_log_lem :
    (global : ℕ) (at : Place) (level : ℕ) (args : List Argument) (left : List ℕ) (uninitialised : ℕ)
    → moved_debug_log global at level args left uninitialised ≡ (
        if leb global level
        then left
          ++ b'\n'
            ∷ (if leb global uninitialised
                then (if not (level == critical) then header at else [])
                  ++ shown_all args
                  ++ b'\n' ∷ []
                else [])
        else [])
unfolding moved_debug_log head
moved_debug_log_lem global at level args left uninitialised = elim (Bool-cases (leb global level)) [
  | inr below ↦ rw (below, moved_debug_log) refl
  | inl above ↦
      rw
        (
          above,
          moved_debug_log,
          old_line global at level above left,
          new_line global at level above args uninitialised,
        )
        (append_assoc left (b'\n' ∷ []) _)
]
