-- ===== src/Lab3/FdSet/Examples.antt =====
-- A set of descriptors to which the descriptor of a closed file is added.
use nssa_ds.Base.{◌≡◌, refl, List, [], ◌∷◌, some, true}
use nssa_ds.Base.Bits.{pos, negsuc}
use nssa_ds.Lab3.FdSet.{fd_zero, new_fd_set, fd_set, fd_is_set, or_at, has_at}
use nssa_ds.Lab3.FdSet.Runs.{
  SetOp, put, clear, run, spec_run, spec_has, read_slot, nobody, run-spec_run,
}
use mathlib.Core.Option.{bind}

abbrev calls : List SetOp
calls = put (pos 5) ∷ (clear ∷ (put (pos 40) ∷ (put (negsuc 0) ∷ [])))

run-spec_run_example :
    bind (run calls new_fd_set) (fd_is_set (pos 31))
    ≡ bind (spec_run calls nobody) (spec_has (read_slot (pos 31)))
run-spec_run_example = run-spec_run calls (pos 31)

-- The descriptor -1 is found as 31.
found_as_31 : bind (run calls new_fd_set) (fd_is_set (pos 31)) ≡ some true
unfolding bind run fd_set fd_is_set or_at has_at fd_zero
found_as_31 = refl
