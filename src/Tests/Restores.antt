-- ===== src/Tests/Restores.antt =====
-- The theorems on restores at a concrete snapshot.
use mem_sandbox.Workspace.Op.{pure, lift, current, commit, ◌>>=◌}
use mem_sandbox.Base.{All, ◌+◌, ◌≡◌, refl, none, some, List, [], ◌∷◌, arith}
use mem_sandbox.Errors.{prepared_restore_invalid, err, ok}
use mem_sandbox.Strings.{codes, text_eq, has_char, starts_with, split, join, contains, ends_with}
use mem_sandbox.Utf8.{encode}
use mem_sandbox.Paths.{
  any_reserved, canonical_absolute, construct, root, is_root, parts, name, parent_of, parent,
  utf8_length, resolve_segments, start_parts, is_outside, check_segments, confine, resolve,
  join_path,
}
use mem_sandbox.Paths.Canonical.{at}
use mem_sandbox.Models.{file_kind, directory_kind}
use mem_sandbox.Tree.{
  get, put, delete, try_get_node, get_node, get_parent, ensure_directories, ensure_parent, modify,
  place,
}
use mem_sandbox.Named.{text_le, insert_named, sort_named, names, map_named}
use mem_sandbox.Hashing.{directory_bytes, hash_directory, node_hash, hash_of}
use mem_sandbox.Measure.{join_all, child_names, sequence_named, sum_bytes, sum_nodes, measure_node}
use mem_sandbox.Clone.{clone_counted, clone_node, clone_directory}
use mem_sandbox.Clone.Laws.{below, entries}
use mem_sandbox.State.{state_for_root, validate_path}
use mem_sandbox.Workspace.Writes.{check_precondition, put_file, write}
use mem_sandbox.Workspace.History.{initial}
use mem_sandbox.Workspace.Restores.{
  SnapshotEntry, entry_node, add_entries, Candidate, Restoring, described_state, prepare_candidate,
  take_candidate, RestoreStep, commit_restore, prepares, takes, publishes, restore_steps,
}
use mem_sandbox.Workspace.Restores.Once.{
  IsOther, IsRestored, take_candidate-once, commit_restore-prepared,
}
use mem_sandbox.Tests.{test_env, draft, start, drafted}

abbrev snapshot_entries : List SnapshotEntry
snapshot_entries =
    record { path = at (codes "notes" ∷ []); kind = directory_kind; content = none }
    ∷ record { path = draft; kind = file_kind; content = some (codes "one\ntwo\n") }
    ∷ []

-- A new workspace with no candidate.
abbrev fresh_workspace : Restoring
fresh_workspace = record { live = start; token = 7; candidates = []; next = 0 }

abbrev candidate : Candidate
candidate = record { owner = 7; capability = 0 }

-- Another candidate is prepared and taken, and a state is published.
abbrev steps_between : List (RestoreStep test_env)
steps_between =
    prepares [] start.stats root
    ∷ takes (record { owner = 7; capability = 1 })
    ∷ publishes start
    ∷ []

abbrev prepared : Restoring
prepared = (prepare_candidate test_env snapshot_entries drafted.stats root fresh_workspace).1

record Prepares : Type 0 where
  described : described_state test_env snapshot_entries drafted.stats root ≡ ok drafted
  returned :
      (prepare_candidate test_env snapshot_entries drafted.stats root fresh_workspace).0
      ≡ ok candidate
  owner : candidate.owner ≡ prepared.token
  issued : (candidate.capability + 1) ≡ prepared.next
  few : 1 + entries drafted.root ≡ 3

prepares_facts : Prepares
unfolding text_eq has_char starts_with split join contains ends_with encode resolve resolve_segments
    start_parts is_outside check_segments confine utf8_length construct canonical_absolute
    any_reserved is_root parts name parent parent_of state_for_root measure_node join_all join_path
    names sort_named insert_named text_le map_named child_names sequence_named sum_bytes sum_nodes
    hash_directory directory_bytes node_hash hash_of initial validate_path ◌>>=◌ lift pure current
    commit get put delete modify place try_get_node get_node get_parent ensure_directories
    ensure_parent clone_directory clone_node clone_counted check_precondition write put_file
    entry_node add_entries described_state prepare_candidate entries below
prepares_facts = record {
  described = refl;
  returned = refl;
  owner = refl;
  issued = refl;
  few = refl;
}

take_candidate-once_example :
    take_candidate test_env candidate (
      restore_steps test_env
        (takes candidate ∷ steps_between)
        (take_candidate test_env candidate prepared).1)
    ≡ (
      err prepared_restore_invalid,
      restore_steps test_env
          (takes candidate ∷ steps_between)
          (take_candidate test_env candidate prepared).1,
    )
take_candidate-once_example =
    take_candidate-once test_env candidate prepared (takes candidate ∷ steps_between)
      prepares_facts.owner (omega (arith, prepares_facts.issued))

others_between : All (IsOther candidate) steps_between
unfolding IsOther
others_between = (tt, (refl, (tt, tt)))

commit_restore-prepared_example : IsRestored snapshot_entries drafted.stats candidate (
    commit_restore test_env candidate
      (publishes start ∷ [])
      (restore_steps test_env steps_between prepared))
commit_restore-prepared_example =
    commit_restore-prepared test_env snapshot_entries drafted.stats root fresh_workspace candidate
      drafted steps_between (publishes start ∷ []) prepares_facts.described prepares_facts.returned
      others_between (omega (arith, prepares_facts.few))
