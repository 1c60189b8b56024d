-- ===== src/Tests/Workspace.antt =====
-- The theorems on the workspace at concrete requests.
use mem_sandbox.Workspace.Op.{pure, lift, current, commit, ◌>>=◌}
use mem_sandbox.Base.{
  if◌then◌else◌, length, ◌+◌, ◌≤◌, ◌≡◌, ◌≢◌, refl, ap, ◌⊎◌, true, false, none, some, List, [], ◌∷◌,
  ◌++◌, arith,
}
use mem_sandbox.Errors.{stale_content, err, ok}
use mem_sandbox.Strings.{codes, text_eq, has_char, starts_with, split, join, contains, ends_with}
use mem_sandbox.Utf8.{Bytes, encode}
use mem_sandbox.Paths.{
  SandboxPath, any_reserved, canonical_absolute, construct, is_root, parts, name, parent_of, parent,
  is_ancestor_of, utf8_length, resolve_segments, start_parts, is_outside, check_segments, confine,
  resolve, join_path,
}
use mem_sandbox.Paths.Canonical.{construct-render}
use mem_sandbox.Models.{ContentHash, WorkspaceMutation}
use mem_sandbox.Tree.{
  Node, file, directory, Children, empty, get, put, delete, try_get_node, get_node, get_parent,
  ensure_directories, ensure_parent, modify, place, discard,
}
use mem_sandbox.Tests.{
  test_env, draft_segments, target_segments, draft_segments-IsSegment, target_segments-IsSegment,
  draft, target, make_target, write_draft, append_draft, guarded_draft, stale_draft, transfer_draft,
  remove_draft, mutation_or, start, drafted,
}
use mem_sandbox.Paths.Ancestors.{Diverges}
use mem_sandbox.Named.{text_le, insert_named, sort_named, names, map_named}
use mem_sandbox.Hashing.{directory_bytes, hash_directory, node_hash, hash_of}
use mem_sandbox.Measure.{join_all, child_names, sequence_named, sum_bytes, sum_nodes, measure_node}
use mem_sandbox.Clone.{clone_counted, clone_node, clone_directory}
use mem_sandbox.State.{state_for_root, validate_path}
use mem_sandbox.Workspace.Writes.{
  find, check_precondition, mkdir_new, mkdir, put_file, write, append, remove_existing, remove,
}
use mem_sandbox.Workspace.Transfers.{check_transfer, transferred, copy, move}
use mem_sandbox.Workspace.Published.{IsMeasured}
use mem_sandbox.Workspace.History.{
  Request, write_request, remove_request, move_request, run, run-raise_unchanged, run-revision,
  run_all, initial, run_all-IsMeasured, run_all-root_hash,
}
use mem_sandbox.Workspace.Contents.{find-write, Earlier, find-append, find-mkdir}
use mem_sandbox.Workspace.Stale.{stale, write-write_stale}
use mem_sandbox.Workspace.Moves.{find-remove, find-copy, find-move}

-- What the requests return in these states.
record Runs : Type 0 where
  start_ok : initial test_env ≡ ok start
  move_ok :
      (move test_env transfer_draft drafted).0
      ≡ ok (mutation_or (move test_env transfer_draft drafted).0)
  copy_ok :
      (copy test_env transfer_draft drafted).0
      ≡ ok (mutation_or (copy test_env transfer_draft drafted).0)
  write_ok :
      (write test_env write_draft start).0 ≡ ok (mutation_or (write test_env write_draft start).0)
  append_ok :
      (append test_env append_draft drafted).0
      ≡ ok (mutation_or (append test_env append_draft drafted).0)
  guarded_ok :
      (write test_env guarded_draft drafted).0
      ≡ ok (mutation_or (write test_env guarded_draft drafted).0)
  remove_ok :
      (remove test_env remove_draft drafted).0
      ≡ ok (mutation_or (remove test_env remove_draft drafted).0)
  stale_raises : (run test_env (write_request stale_draft) drafted).0 ≡ err stale_content
  mkdir_ok :
      (mkdir test_env make_target drafted).0
      ≡ ok (mutation_or (mkdir test_env make_target drafted).0)
  mkdir_changed : (mutation_or (mkdir test_env make_target drafted).0).changed ≡ true
  run_ok :
      (run test_env (write_request write_draft) start).0
      ≡ ok (mutation_or (run test_env (write_request write_draft) start).0)

runs : Runs
unfolding text_eq has_char starts_with split join contains ends_with encode resolve resolve_segments
    start_parts is_outside check_segments confine utf8_length construct canonical_absolute
    any_reserved is_root parts name parent parent_of is_ancestor_of state_for_root measure_node
    join_all join_path names sort_named insert_named text_le map_named child_names sequence_named
    sum_bytes sum_nodes hash_directory directory_bytes node_hash hash_of initial validate_path ◌>>=◌
    lift pure current commit get put delete modify place discard try_get_node get_node get_parent
    ensure_directories ensure_parent clone_directory clone_node clone_counted check_precondition
    check_transfer transferred mkdir mkdir_new write put_file append remove remove_existing move
    copy run
runs = record {
  start_ok = refl;
  move_ok = refl;
  copy_ok = refl;
  write_ok = refl;
  append_ok = refl;
  guarded_ok = refl;
  remove_ok = refl;
  stale_raises = refl;
  mkdir_ok = refl;
  mkdir_changed = refl;
  run_ok = refl;
}

draft_built : construct draft.value ≡ ok draft
draft_built = construct-render draft_segments draft_segments-IsSegment

target_built : construct target.value ≡ ok target
target_built = construct-render target_segments target_segments-IsSegment

abbrev moved_a : WorkspaceMutation
moved_a = mutation_or (move test_env transfer_draft drafted).0

find-move_example :
    (n : Node) × (find drafted.root draft ≡ ok (some n))
    × (find (move test_env transfer_draft drafted).1.root target ≡ ok (some n))
    × (find (move test_env transfer_draft drafted).1.root draft ≡ ok none)
    × ((q : SandboxPath)
        → Diverges (parts draft) (parts q)
        → Diverges (parts target) (parts q)
        → find (move test_env transfer_draft drafted).1.root q ≡ find drafted.root q)
    × (false ≡ false → find drafted.root target ≡ ok none)
find-move_example =
    find-move test_env drafted (mutation_or (move test_env transfer_draft drafted).0) transfer_draft
      (draft_segments, draft_segments-IsSegment, refl) target_built runs.move_ok

find-copy_example :
    (n : Node) × (find drafted.root draft ≡ ok (some n))
    × (find (copy test_env transfer_draft drafted).1.root draft ≡ ok (some n))
    × (find (copy test_env transfer_draft drafted).1.root target ≡ ok (some n))
    × ((q : SandboxPath)
        → Diverges (parts target) (parts q)
        → find (copy test_env transfer_draft drafted).1.root q ≡ find drafted.root q)
    × (false ≡ false → find drafted.root target ≡ ok none)
find-copy_example =
    find-copy test_env drafted (mutation_or (copy test_env transfer_draft drafted).0) transfer_draft
      draft_built target_built runs.copy_ok

find-write_example :
    (find drafted.root draft ≡ ok (some (file (codes "one\ntwo\n"))))
    × ((q : SandboxPath)
        → Diverges (parts draft) (parts q)
        → find drafted.root q ≡ find start.root q)
find-write_example =
    find-write test_env start (mutation_or (write test_env write_draft start).0) write_draft
      runs.write_ok

find-append_example :
    (old : Bytes) × Earlier drafted draft old
    × (find (append test_env append_draft drafted).1.root draft
        ≡ ok (some (file (old ++ codes " two"))))
    × (length (old ++ codes " two") ≤ test_env.limits.max_file_bytes)
    × ((q : SandboxPath)
        → Diverges (parts draft) (parts q)
        → find (append test_env append_draft drafted).1.root q ≡ find drafted.root q)
find-append_example =
    find-append test_env drafted (mutation_or (append test_env append_draft drafted).0) append_draft
      runs.append_ok

abbrev old_hash : ContentHash
old_hash = record { digest = 4 ∷ [] }

abbrev new_hash : ContentHash
new_hash = record { digest = 8 ∷ [] }

new-ne-old : new_hash ≢ old_hash
new-ne-old h = let d = ap (λ (c : ContentHash). c.digest) h in cc d

write-write_stale_example :
    write test_env stale_draft (write test_env write_draft start).1
    ≡ (err stale_content, (write test_env write_draft start).1)
write-write_stale_example =
    write-write_stale test_env start (mutation_or (write test_env write_draft start).0) write_draft
      stale_draft stale_content refl (omega arith) (stale old_hash new-ne-old) runs.write_ok

find-remove_example :
    (find (remove test_env remove_draft drafted).1.root draft ≡ ok none)
    × ((q : SandboxPath)
        → Diverges (parts draft) (parts q)
        → find (remove test_env remove_draft drafted).1.root q ≡ find drafted.root q)
    × ((cs : Children)
        → find drafted.root draft ≡ ok (some (directory cs))
        → (cs ≡ empty) ⊎ (false ≡ true))
    × (find drafted.root draft ≡ ok none → false ≡ true)
find-remove_example =
    find-remove test_env drafted (mutation_or (remove test_env remove_draft drafted).0) remove_draft
      (draft_segments, draft_segments-IsSegment, refl) runs.remove_ok

run-raise_unchanged_example : (run test_env (write_request stale_draft) drafted).1 ≡ drafted
run-raise_unchanged_example =
    run-raise_unchanged test_env (write_request stale_draft) drafted stale_content tt
      runs.stale_raises

run-revision_example :
    ((run test_env (write_request write_draft) start).1.stats
      ≡ (mutation_or (run test_env (write_request write_draft) start).0).stats)
    × ((mutation_or (run test_env (write_request write_draft) start).0).stats.revision ≡ (
        if (mutation_or (run test_env (write_request write_draft) start).0).changed
        then start.stats.revision + 1
        else start.stats.revision))
    × ((mutation_or (run test_env (write_request write_draft) start).0).changed ≡ false
        → (run test_env (write_request write_draft) start).1 ≡ start)
run-revision_example =
    run-revision test_env (write_request write_draft) start
      (mutation_or (run test_env (write_request write_draft) start).0) tt runs.run_ok

abbrev requests : List Request
requests =
    write_request write_draft
    ∷ write_request stale_draft
    ∷ move_request transfer_draft
    ∷ remove_request remove_draft
    ∷ []

run_all-IsMeasured_example :
    IsMeasured test_env (run_all test_env requests start)
    × ((run_all test_env requests start).stats.revision ≤ length requests)
run_all-IsMeasured_example =
    run_all-IsMeasured test_env requests start (tt, (tt, ((draft_built, target_built), (tt, tt))))
      runs.start_ok

run_all-root_hash_example :
    node_hash test_env.sha256 (directory (run_all test_env requests start).root)
    ≡ ok (run_all test_env requests start).stats.root_hash
run_all-root_hash_example =
    run_all-root_hash test_env requests start (tt, (tt, ((draft_built, target_built), (tt, tt))))
      runs.start_ok

find-mkdir_example :
    (find drafted.root target ≡ ok none)
    × (find (mkdir test_env make_target drafted).1.root target ≡ ok (some (directory empty)))
    × ((q : SandboxPath)
        → Diverges (parts target) (parts q)
        → find (mkdir test_env make_target drafted).1.root q ≡ find drafted.root q)
find-mkdir_example =
    find-mkdir test_env drafted (mutation_or (mkdir test_env make_target drafted).0) make_target
      runs.mkdir_ok runs.mkdir_changed
