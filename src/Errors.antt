-- ===== src/Errors.antt =====
-- The exceptions of errors.py in the packages workspace, command_executor, secrets and snapshots of
-- src/mem_sandbox, and functions that may raise them.
-- An exception is its class; messages are not modelled. `value_error`, `overflow_error`,
-- `assertion_error` and `cancelled_error` are Python's own.
use mem_sandbox.Base.{◌≡◌, refl, ◌⊎◌, inl, inr, Bool, true, false}

pub data Error : Type 0 where
  invalid_path path_outside_workspace path_not_found path_already_exists : Error
  not_a_file not_a_directory directory_not_empty root_modification : Error
  same_path destination_within_source unsupported_node_type : Error
  file_encoding_error invalid_range stale_content : Error
  invalid_patch patch_context_mismatch : Error
  file_size_limit_exceeded workspace_size_limit_exceeded : Error
  node_limit_exceeded read_limit_exceeded : Error
  snapshot_too_large snapshot_corrupt snapshot_incompatible : Error
  snapshot_identifier_conflict snapshot_not_found snapshot_store_full : Error
  snapshot_save_failed snapshot_load_failed : Error
  prepared_restore_invalid restore_candidate_mismatch : Error
  value_error overflow_error assertion_error : Error
  secret_not_found secret_denied secret_expired secret_lease_closed : Error
  secret_lease_limit_exceeded secret_source_unavailable secret_source_value_invalid : Error
  cancelled_error : Error
  command_empty command_syntax_invalid command_syntax_unsupported : Error

-- What a call returns, or the exception that it raises.
pub data Result {ℓ} (A : Type ℓ) : Type ℓ where
  err : Error → Result A
  ok : A → Result A

-- `if test: raise error`
abbrev pub raise_if : Bool → Error → Result (Unit {0})
raise_if true e = err e
raise_if false e = ok tt

infixl 5 ◌>>=◌ ◌>>◌
-- The rest of a function after a call: an exception ends it.
abbrev pub ◌>>=◌ {ℓ κ} : {A : Type ℓ} {B : Type κ} → Result A → (A → Result B) → Result B
err e >>= rest = err e
ok x >>= rest = rest x

abbrev pub ◌>>◌ {ℓ κ} : {A : Type ℓ} {B : Type κ} → Result A → Result B → Result B
call >> rest = call >>= λ _. rest

pub raise_if-eq-ok : (b : Bool) (x : Error) (u : Unit {0}) → raise_if b x ≡ ok u → b ≡ false
raise_if-eq-ok true x u h = absurd (cc h)
raise_if-eq-ok false x u h = refl

-- If a call and what follows it return, the call returned.
pub >>=-eq-ok {ℓ κ} :
    {A : Type ℓ} {B : Type κ} (m : Result A) (f : A → Result B) {b : B} (h : (m >>= f) ≡ ok b)
    → (a : A) × (m ≡ ok a) × (f a ≡ ok b)
>>=-eq-ok (err x) f h = cc
>>=-eq-ok (ok a) f h = (a, refl, h)

pub Result-cases {ℓ} :
    {A : Type ℓ} (r : Result A) → ((e : Error) × (r ≡ err e)) ⊎ ((a : A) × (r ≡ ok a))
Result-cases (err e) = inl (e, refl)
Result-cases (ok a) = inr (a, refl)
