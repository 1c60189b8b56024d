-- ===== src/Snapshots/Keys.antt =====
-- The keys of the dict of snapshots: what `pop` and an insertion do to a lookup.
use mem_sandbox.Base.{
  leb, Bool-cases, All, ℕ, ◌≡◌, refl, inl, inr, true, false, Option, none, some, [], ◌∷◌, ◌++◌,
  arith,
}
use mem_sandbox.Strings.{Text, text_eq, text_eq_iff, text_eq_refl}
use mem_sandbox.Named.{Named}
use mem_sandbox.Snapshots.{Snapshot, lookup, pop, expired}

-- A key stands once.
unfoldable pub IsDistinct : Named Snapshot → Type 0
IsDistinct [] = Unit
IsDistinct ((k, s) ∷ l) = (lookup k l ≡ none) × IsDistinct l

-- The text of no key is this one.
abbrev pub OtherKeys : Text → Named Snapshot → Type 0
OtherKeys ref l = All (λ (e : Text × Snapshot). text_eq e.0 ref ≡ false) l

pub same_text : (s t : Text) → text_eq s t ≡ true → s ≡ t
same_text s t h = (text_eq_iff s t).0 h

other_text : (j k ref : Text) → text_eq j k ≡ true → text_eq k ref ≡ false → text_eq j ref ≡ false
other_text j k ref h ne = rw (same_text j k h) ne

lookup-append :
    (ref k : Text) (s : Snapshot) (l : Named Snapshot) (r : Option Snapshot)
    → text_eq k ref ≡ false
    → lookup ref l ≡ r
    → lookup ref (l ++ (k, s) ∷ []) ≡ r
unfolding lookup
lookup-append ref k s [] r ne h = rw ne h
lookup-append ref k s ((j, x) ∷ l) r ne h = elim (Bool-cases (text_eq j ref)) [
  | inl e ↦ rw e (rw e at h)
  | inr e ↦ rw e (lookup-append ref k s l r ne (rw e at h))
]

pub lookup-append_new :
    (ref : Text) (s : Snapshot) (l : Named Snapshot)
    → lookup ref l ≡ none
    → lookup ref (l ++ (ref, s) ∷ []) ≡ some s
unfolding lookup
lookup-append_new ref s [] h = rw (text_eq_refl ref) refl
lookup-append_new ref s ((j, x) ∷ l) h = elim (Bool-cases (text_eq j ref)) [
  | inl e ↦ absurd (cc (rw e at h))
  | inr e ↦ rw e (lookup-append_new ref s l (rw e at h))
]

pub lookup-append_some :
    (ref k : Text) (s x : Snapshot) (l : Named Snapshot)
    → lookup ref l ≡ some s
    → lookup ref (l ++ (k, x) ∷ []) ≡ some s
unfolding lookup
lookup-append_some ref k s x [] h = absurd (cc h)
lookup-append_some ref k s x ((j, y) ∷ l) h = elim (Bool-cases (text_eq j ref)) [
  | inl e ↦ rw e (rw e at h)
  | inr e ↦ rw e (lookup-append_some ref k s x l (rw e at h))
]

pub lookup-pop_ne :
    (ref k : Text) (l : Named Snapshot)
    → text_eq k ref ≡ false
    → lookup ref (pop k l) ≡ lookup ref l
unfolding lookup pop
lookup-pop_ne ref k [] ne = refl
lookup-pop_ne ref k ((j, x) ∷ l) ne = elim (Bool-cases (text_eq j k)) [
  | inl e ↦ rw (e, other_text j k ref e ne) refl
  | inr e ↦ ground (arith, e, lookup-pop_ne ref k l ne)
]

lookup-pop-none :
    (ref k : Text) (l : Named Snapshot) → lookup ref l ≡ none → lookup ref (pop k l) ≡ none
unfolding lookup pop
lookup-pop-none ref k [] h = refl
lookup-pop-none ref k ((j, x) ∷ l) h = ground (arith, lookup-pop-none ref k l)

pub pop-IsDistinct : (k : Text) (l : Named Snapshot) → IsDistinct l → IsDistinct (pop k l)
unfolding IsDistinct pop
pop-IsDistinct k [] d = tt
pop-IsDistinct k ((j, x) ∷ l) (absent, d) = elim (Bool-cases (text_eq j k)) [
  | inl e ↦ rw e d
  | inr e ↦ rw e (lookup-pop-none j k l absent, pop-IsDistinct k l d)
]

pub append-IsDistinct :
    (k : Text) (s : Snapshot) (l : Named Snapshot)
    → lookup k l ≡ none
    → IsDistinct l
    → IsDistinct (l ++ (k, s) ∷ [])
unfolding IsDistinct lookup
append-IsDistinct k s [] h d = (refl, tt)
append-IsDistinct k s ((j, x) ∷ l) h (absent, d) = elim (Bool-cases (text_eq j k)) [
  | inl e ↦ absurd (cc (rw e at h))
  | inr e ↦ (lookup-append j k s l none (other_sym e) absent, append-IsDistinct k s l (rw e at h) d)
]
  where
    other_sym : text_eq j k ≡ false → text_eq k j ≡ false
    other_sym ne = elim (Bool-cases (text_eq k j)) [
      | inl e ↦ absurd (cc (rw (same_text k j e, text_eq_refl j) at ne))
      | inr e ↦ e
    ]

-- What is expired has other keys than a snapshot that is not.
expired-OtherKeys_absent :
    (ref : Text) (now : ℕ) (l : Named Snapshot)
    → lookup ref l ≡ none
    → OtherKeys ref (expired now l)
unfolding lookup expired
expired-OtherKeys_absent ref now [] h = tt
expired-OtherKeys_absent ref now ((j, x) ∷ l) h = elim (Bool-cases (text_eq j ref)) [
  | inl e ↦ absurd (cc (rw e at h))
  | inr e ↦ elim (Bool-cases (leb x.expires_at now)) [
    | inl k ↦ rw k (e, expired-OtherKeys_absent ref now l (rw e at h))
    | inr k ↦ rw k (expired-OtherKeys_absent ref now l (rw e at h))
  ]
]

pub expired-OtherKeys :
    (ref : Text) (now : ℕ) (s : Snapshot) (l : Named Snapshot)
    → IsDistinct l
    → lookup ref l ≡ some s
    → leb s.expires_at now ≡ false
    → OtherKeys ref (expired now l)
unfolding lookup expired IsDistinct
expired-OtherKeys ref now s [] d h later = tt
expired-OtherKeys ref now s ((j, x) ∷ l) (absent, d) h later = elim (Bool-cases (text_eq j ref)) [
  | inl e ↦
      let same : x ≡ s = cc (rw e at h) in
      rw (same, later) (expired-OtherKeys_absent ref now l (rw (same_text j ref e) at absent))
  | inr e ↦ elim (Bool-cases (leb x.expires_at now)) [
    | inl k ↦ rw k (e, expired-OtherKeys ref now s l d (rw e at h) later)
    | inr k ↦ rw k (expired-OtherKeys ref now s l d (rw e at h) later)
  ]
]
