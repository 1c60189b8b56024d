-- ===== src/Workspace/Restores/Once.antt =====
-- A prepared state is published as it was prepared, and once.
use mathlib.Core.Path.{subst}
use mem_sandbox.Base.{
  ◌==◌, ==_iff, ==_refl, Bool-cases, Option-cases, All, ℕ, ◌+◌, ◌≤◌, ◌<◌, ◌≡◌, refl, sym, ap, ◌∙◌,
  ◌⊎◌, inl, inr, Bool, true, false, not, Option, none, some, List, [], ◌∷◌, arith,
}
use mem_sandbox.Errors.{
  snapshot_corrupt, prepared_restore_invalid, err, ok, Result, raise_if, raise_if-eq-ok, >>=-eq-ok,
  Result-cases,
}
use mem_sandbox.Strings.{text_eq_iff, text_eq_refl}
use mem_sandbox.Paths.{SandboxPath}
use mem_sandbox.Models.{WorkspaceStats}
use mem_sandbox.Tree.{get_node, require_directory}
use mem_sandbox.Measure.{Env}
use mem_sandbox.Clone.{clone_directory}
use mem_sandbox.Clone.Laws.{entries, clone_directory_lem}
use mem_sandbox.State.{State, state_for_root}
use mem_sandbox.Workspace.Published.{state_for_root-eq-ok, root-state_for_root}
use mem_sandbox.Workspace.Restores.Entries.{IsTreeOf, root_from_entries-IsTreeOf}
use mem_sandbox.Workspace.Restores.{
  SnapshotEntry, root_from_entries, stats_eq, Candidate, Restoring, candidate_state, pop_candidate,
  described_state, prepare_candidate, detach, detached_state, take_candidate, RestoreStep,
  publish_taken, commit_restore, prepares, takes, publishes, restore_step, restore_steps,
}

stats_eq_refl : (a : WorkspaceStats) → stats_eq a a ≡ true
stats_eq_refl a = ground (
  arith,
  ==_refl a.total_bytes,
  ==_refl a.node_count,
  ==_refl a.revision,
  text_eq_refl a.root_hash.digest,
)

candidate_state-pop_self :
    (c : ℕ) (l : List (ℕ × State)) → candidate_state c (pop_candidate c l) ≡ none
unfolding candidate_state pop_candidate
candidate_state-pop_self c [] = refl
candidate_state-pop_self c ((k, s) ∷ l) = ground (arith, candidate_state-pop_self c l)

candidate_state-pop_ne :
    (c k : ℕ) (l : List (ℕ × State))
    → (k == c) ≡ false
    → candidate_state c (pop_candidate k l) ≡ candidate_state c l
unfolding candidate_state pop_candidate
candidate_state-pop_ne c k [] ne = refl
candidate_state-pop_ne c k ((j, s) ∷ l) ne = ground (arith, candidate_state-pop_ne c k l ne)

-- A step that does not take this candidate.
unfoldable pub IsOther : {env : Env} → Candidate → RestoreStep env → Type 0
IsOther c (prepares es stats required) = Unit
IsOther c (takes d) = (d.capability == c.capability) ≡ false
IsOther c (publishes s) = Unit

stats_eq-eq : (a b : WorkspaceStats) → stats_eq a b ≡ true → a ≡ b
stats_eq-eq a b h = ground (
  arith,
  ==_iff a.total_bytes b.total_bytes,
  ==_iff a.node_count b.node_count,
  ==_iff a.revision b.revision,
  text_eq_iff a.root_hash.digest b.root_hash.digest,
)

-- What a commit of a candidate that was prepared from entries and statistics leaves.
pub record IsRestored (es : List SnapshotEntry) (stats : WorkspaceStats) (c : Candidate)
    (after : Result (Unit {0}) × Restoring) : Type 0 where
  pub returned : after.0 ≡ ok tt
  pub tree : IsTreeOf es after.1.live.root
  pub statistics : after.1.live.stats ≡ stats
  pub spent : candidate_state c.capability after.1.candidates ≡ none

module _ (env : Env) where
  -- The workspace's token, that a capability was issued, and what is prepared under it.
  record Issued (c : Candidate) (o : Option State) (w : Restoring) : Type 0 where
    owner : c.owner ≡ w.token
    issued : c.capability < w.next
    held : candidate_state c.capability w.candidates ≡ o

  prepare-Issued :
      (c : Candidate) (o : Option State) (es : List SnapshotEntry) (stats : WorkspaceStats)
      (required : SandboxPath) (w : Restoring)
      → Issued c o w
      → Issued c o (prepare_candidate env es stats required w).1
  unfolding prepare_candidate candidate_state
  prepare-Issued c o es stats required w i =
      elim (Result-cases (described_state env es stats required)) [
        | inl (x, e) ↦ rw (e, prepare_candidate) i
        | inr (s, e) ↦
            rw (e, prepare_candidate)
              (record {
                owner = i.owner;
                issued = omega (arith, i.issued);
                held = ground (arith, i.issued, i.held);
              })
      ]

  take-Issued :
      (c d : Candidate) (o : Option State) (w : Restoring)
      → ((d.capability == c.capability) ≡ false) ⊎ (o ≡ none)
      → Issued c o w
      → Issued c o (take_candidate env d w).1
  unfolding take_candidate
  take-Issued c d o w ne i = elim (Bool-cases (d.owner == w.token)) [
    | inr k ↦ rw (k, take_candidate) i
    | inl k ↦ elim (Option-cases (candidate_state d.capability w.candidates)) [
      | inl e ↦ rw (k, e, take_candidate) i
      | inr (s, e) ↦
          rw (k, e, take_candidate)
            (record {
              owner = i.owner;
              issued = i.issued;
              held = elim (Bool-cases (d.capability == c.capability)) [
                | inl same ↦
                    let is : d.capability ≡ c.capability =
                      (==_iff d.capability c.capability).0 same in
                    absurd (elim ne [
                      | inl other ↦ cc (same, other)
                      | inr gone ↦ cc (rw is at e, i.held, gone)
                    ])
                | inr other ↦
                    candidate_state-pop_ne c.capability d.capability w.candidates other ∙ i.held
              ];
            })
    ]
  ]

  step-Issued :
      (c : Candidate) (o : Option State) (e : RestoreStep env) (w : Restoring)
      → IsOther c e ⊎ (o ≡ none)
      → Issued c o w
      → Issued c o (restore_step env e w)
  unfolding restore_step IsOther
  step-Issued c o (prepares es stats required) w ne i = prepare-Issued c o es stats required w i
  step-Issued c o (takes d) w ne i = take-Issued c d o w ne i
  step-Issued c o (publishes s) w ne i = record {
    owner = i.owner;
    issued = i.issued;
    held = i.held;
  }

  others-Issued :
      (c : Candidate) (o : Option State) (es : List (RestoreStep env)) (w : Restoring)
      → All (IsOther c) es
      → Issued c o w
      → Issued c o (restore_steps env es w)
  unfolding restore_steps
  others-Issued c o [] w a i = i
  others-Issued c o (e ∷ es) w (p, a) i =
      others-Issued c o es (restore_step env e w) a (step-Issued c o e w (inl p) i)

  gone-Issued :
      (c : Candidate) (es : List (RestoreStep env)) (w : Restoring)
      → Issued c none w
      → Issued c none (restore_steps env es w)
  unfolding restore_steps
  gone-Issued c [] w i = i
  gone-Issued c (e ∷ es) w i =
      gone-Issued c es (restore_step env e w) (step-Issued c none e w (inr refl) i)

  taken-Issued :
      (c : Candidate) (w : Restoring)
      → c.owner ≡ w.token
      → c.capability < w.next
      → Issued c none (take_candidate env c w).1
  unfolding take_candidate
  taken-Issued c w own issued =
      let k : (c.owner == w.token) ≡ true = (==_iff c.owner w.token).1 own in
      elim (Option-cases (candidate_state c.capability w.candidates)) [
        | inl e ↦ rw (k, e, take_candidate) (record { owner = own; issued = issued; held = e })
        | inr (s, e) ↦
            rw (k, e, take_candidate)
              (record {
                owner = own;
                issued = issued;
                held = candidate_state-pop_self c.capability w.candidates;
              })
      ]

  take_candidate-none :
      (c : Candidate) (w : Restoring)
      → Issued c none w
      → take_candidate env c w ≡ (err prepared_restore_invalid, w)
  unfolding take_candidate
  take_candidate-none c w i =
      let k : (c.owner == w.token) ≡ true = (==_iff c.owner w.token).1 i.owner in
      rw (k, i.held, take_candidate) refl

  -- A candidate that the workspace issued is spent by the first commit that looks it up, whether that
  -- publishes or raises: whatever is prepared, taken or published later, it is refused and the
  -- workspace is as it was.
  pub take_candidate-once :
      (c : Candidate) (w : Restoring) (later : List (RestoreStep env))
      → c.owner ≡ w.token
      → c.capability < w.next
      → take_candidate env c (restore_steps env later (take_candidate env c w).1)
        ≡ (err prepared_restore_invalid, restore_steps env later (take_candidate env c w).1)
  take_candidate-once c w later own issued =
      take_candidate-none c (restore_steps env later (take_candidate env c w).1)
        (gone-Issued c later (take_candidate env c w).1 (taken-Issued c w own issued))

  agreed : (b : Bool) → not b ≡ false → b ≡ true
  agreed true h = refl
  agreed false h = absurd (cc h)

  -- What a described state is.
  described_state-published :
      (es : List SnapshotEntry) (stats : WorkspaceStats) (required : SandboxPath) (s : State)
      → described_state env es stats required ≡ ok s
      → (root_from_entries es ≡ ok s.root)
        × (state_for_root env s.root s.stats.revision ≡ ok s)
        × (s.stats ≡ stats)
  unfolding described_state
  described_state-published es stats required s h =
      let (cs, read, h1) = >>=-eq-ok (root_from_entries es) _ h in
      let (t, published, h2) = >>=-eq-ok (state_for_root env cs stats.revision) _ h1 in
      let (_, agree, h3) =
        >>=-eq-ok (raise_if (not (stats_eq t.stats stats)) snapshot_corrupt) _ h2 in
      let (node, _, h4) = >>=-eq-ok (get_node t.root required) _ h3 in
      let (_, _, h5) = >>=-eq-ok (require_directory node) _ h4 in
      let same : t ≡ s = cc h5 in
      let (m, _, _, _, made) = state_for_root-eq-ok env cs stats.revision t published in
      let root : t.root ≡ cs = root-state_for_root env cs stats.revision t published in
      let revision : t.stats.revision ≡ stats.revision =
        ap (λ (u : State). u.stats.revision) made in
      subst
        (λ (u : State).
          (root_from_entries es ≡ ok u.root)
          × (state_for_root env u.root u.stats.revision ≡ ok u)
          × (u.stats ≡ stats))
        same
        (
          read ∙ ap ok (sym root),
          rw (root, revision) published,
          stats_eq-eq t.stats stats (agreed (stats_eq t.stats stats) (raise_if-eq-ok _ _ _ agree)),
        )

  detached_state-same :
      (s : State)
      → state_for_root env s.root s.stats.revision ≡ ok s
      → 1 + entries s.root ≤ env.limits.max_nodes
      → detached_state env s ≡ ok s
  unfolding detached_state detach
  detached_state-same s published few =
      let cloned : clone_directory s.root env.limits.max_nodes ≡ ok s.root =
        clone_directory_lem s.root env.limits.max_nodes (omega (arith, few))
        ∙ ground (arith, few) in
      rw (cloned, published, detach, detached_state, stats_eq_refl s.stats) refl

  -- Behind other steps a prepared candidate is still there.
  prepared-Issued :
      (es : List SnapshotEntry) (stats : WorkspaceStats) (required : SandboxPath) (w : Restoring)
      (c : Candidate) (s : State) (later : List (RestoreStep env))
      → described_state env es stats required ≡ ok s
      → (prepare_candidate env es stats required w).0 ≡ ok c
      → All (IsOther c) later
      → Issued c (some s) (restore_steps env later (prepare_candidate env es stats required w).1)
  unfolding prepare_candidate candidate_state
  prepared-Issued es stats required w c s later described returned others =
      let is : record { owner = w.token; capability = w.next } ≡ c =
        cc (rw (described, prepare_candidate) at returned) in
      let first : Issued c (some s) (prepare_candidate env es stats required w).1 =
        subst (λ d. Issued d (some s) (prepare_candidate env es stats required w).1) is
          (rw (described, prepare_candidate)
            (record {
              owner = refl;
              issued = omega arith;
              held = ground (arith, ==_refl w.next);
            })) in
      others-Issued c (some s) later (prepare_candidate env es stats required w).1 others first

  take_candidate-held :
      (c : Candidate) (s : State) (w : Restoring)
      → Issued c (some s) w
      → detached_state env s ≡ ok s
      → (take_candidate env c w).0 ≡ ok s
  unfolding take_candidate
  take_candidate-held c s w i detached =
      let own = (==_iff c.owner w.token).1 i.owner in rw (own, i.held, take_candidate) detached

  publish_taken-ok :
      (meanwhile : List (RestoreStep env)) (taken : Result State × Restoring) (s : State)
      → taken.0 ≡ ok s
      → publish_taken env meanwhile taken
        ≡ (ok tt, record (restore_steps env meanwhile taken.1) { live = s })
  unfolding publish_taken
  publish_taken-ok meanwhile (ok t, w) s h =
      ap (λ u. (ok tt, record (restore_steps env meanwhile w) { live = u })) (cc h)
  publish_taken-ok meanwhile (err e, w) s h = absurd (cc h)

  -- A candidate that was prepared from entries and is looked up by `commit_restore`, behind any
  -- steps but commits of it: whatever others do in the last wait of the commit, it returns,
  -- provided that the root and what is below it keep the limit on nodes. The workspace then has
  -- the statistics that were given; each file of an entry, if its path is canonical and below the
  -- root and no later entry's path contains it or lies below it, is at its path with its bytes; a
  -- path apart from all entries is as in an empty workspace; and the candidate is gone.
  pub commit_restore-prepared :
      (es : List SnapshotEntry) (stats : WorkspaceStats) (required : SandboxPath) (w : Restoring)
      (c : Candidate) (s : State) (later meanwhile : List (RestoreStep env))
      → described_state env es stats required ≡ ok s
      → (prepare_candidate env es stats required w).0 ≡ ok c
      → All (IsOther c) later
      → 1 + entries s.root ≤ env.limits.max_nodes
      → IsRestored es stats c (
          commit_restore env c meanwhile
            (restore_steps env later (prepare_candidate env es stats required w).1))
  unfolding commit_restore
  commit_restore-prepared es stats required w c s later meanwhile described returned others few =
      let before = restore_steps env later (prepare_candidate env es stats required w).1 in
      let (read, published, same) = described_state-published es stats required s described in
      let i = prepared-Issued es stats required w c s later described returned others in
      let taken = take_candidate-held c s before i (detached_state-same s published few) in
      let gone =
        gone-Issued c meanwhile (take_candidate env c before).1
          (taken-Issued c before i.owner i.issued) in
      rw (publish_taken-ok meanwhile (take_candidate env c before) s taken) (record {
        returned = refl;
        tree = root_from_entries-IsTreeOf es s.root read;
        statistics = same;
        spent = gone.held;
      })
