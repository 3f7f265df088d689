-- ===== src/Loader/Signed.antt =====
-- Which modules the two loaders of src/equus_loader.c hand to `require`.
use ck_agent.Base.{
  ℕ, ◌≡◌, ◌≢◌, inl, inr, Option, none, some, List, ◌==◌, ==_iff, Bool-cases, Option-cases, ℤ, pos,
  negsuc, eq_ℤ, eq_ℤ_iff, Bytes,
}
use ck_agent.Lua.{LuaValue, check_string}
use ck_agent.Loader.{
  Crypto, chosen_key, verify, Modules, Loaded, chunk, is_zero, or_nil, load_chunk, loader_load,
  after_verify, local_load,
}

-- `EVP_VerifyFinal` says 1 of the text, with the key that counts.
abbrev pub IsSigned : Crypto → (input signature : Bytes) → Option Bytes → Type 0
IsSigned c input signature key =
    (k : ℕ) × (c.pem_read (chosen_key c key) ≡ some k) × (c.verify_final input signature k ≡ pos 1)

not_zero : some (negsuc 0) ≢ some (pos 0)
not_zero e = cc

-- `equus_verify` returns 0 only where the signature is correct: not where `EVP_VerifyFinal` reports a
-- wrong one by 0, nor where it reports another error by a negative number.
pub verify-IsSigned :
    (c : Crypto) (input signature : Bytes) (key : Option Bytes)
    → verify c input signature key ≡ some (pos 0)
    → IsSigned c input signature key
unfolding verify
verify-IsSigned c input signature key h = elim (Option-cases (c.pem_read (chosen_key c key))) [
  | inl unreadable ↦ cc (rw (unreadable, verify) at h)
  | inr (k, key_read) ↦ elim (Bool-cases (eq_ℤ (c.verify_final input signature k) (pos 1))) [
    | inl good ↦ (k, key_read, (eq_ℤ_iff _ _).0 good)
    | inr bad ↦ absurd (not_zero (rw (verify, key_read, bad) at h))
  ]
]

pair-eq : (x : ℤ × Bytes) {n : ℤ} {b : Bytes} → x.0 ≡ n → x.1 ≡ b → x ≡ (n, b)
pair-eq (m, a) e f = rw (e, f)

or_nil-eq-chunk :
    (rv : ℤ) (next : Loaded) (b : Bytes)
    → or_nil rv next ≡ chunk b
    → (rv ≡ pos 0) × (next ≡ chunk b)
or_nil-eq-chunk rv next b h = elim (Bool-cases (is_zero rv)) [
  | inl ok ↦ ((eq_ℤ_iff _ _).0 ok, rw ok at h)
  | inr bad ↦ cc (rw bad at h)
]

module _ (load_buffer : Bytes → Bytes → ℕ) where
  load_chunk-eq-chunk :
      (name text b : Bytes)
      → load_chunk load_buffer name text ≡ chunk b
      → (load_buffer text name ≡ 0) × (text ≡ b)
  load_chunk-eq-chunk name text b h = elim (Bool-cases (load_buffer text name == 0)) [
    | inl ok ↦ ((==_iff _ _).0 ok, cc (rw ok at h))
    | inr bad ↦ cc (rw bad at h)
  ]

  after_verify-eq-chunk :
      (name text b : Bytes) (r : Option ℤ)
      → after_verify load_buffer name text r ≡ chunk b
      → (r ≡ some (pos 0)) × (load_buffer text name ≡ 0) × (text ≡ b)
  after_verify-eq-chunk name text b none h = cc
  after_verify-eq-chunk name text b (some rv) h = elim (Bool-cases (is_zero rv)) [
    | inl ok ↦
        let zero_rv : rv ≡ pos 0 = (eq_ℤ_iff _ _).0 ok in
        let (compiles, same) = load_chunk-eq-chunk name text b (rw ok at h) in
        (rw zero_rv, compiles, same)
    | inr bad ↦ cc (rw bad at h)
  ]

  -- A module that `equus_local_load` hands to `require` is the text that the table has under the name: the
  -- searches for the name, the text, the signature and the key all succeeded. The text compiles, and its
  -- signature in the table is correct under the key in the table, or under the default key where the
  -- table has an empty one.
  pub local_load-IsSigned :
      (c : Crypto) (t : Modules) (args : List LuaValue) (b : Bytes)
      → local_load load_buffer c t args ≡ chunk b
      → (name : Bytes) × (check_string args 0 ≡ some name)
        × (t.has_module name ≡ pos 0)
        × (t.get_module name ≡ (pos 0, b))
        × ((t.get_signature name).0 ≡ pos 0)
        × ((t.get_pubkey name).0 ≡ pos 0)
        × (load_buffer b name ≡ 0)
        × IsSigned c b (t.get_signature name).1 (some (t.get_pubkey name).1)
  unfolding local_load
  local_load-IsSigned c t args b h = elim (Option-cases (check_string args 0)) [
    | inl no_name ↦ cc (rw (no_name, local_load) at h)
    | inr (name, named) ↦
        let (there, h1) = or_nil-eq-chunk (t.has_module name) _ b (rw (local_load, named) at h) in
        let (given, h2) = or_nil-eq-chunk (t.get_module name).0 _ b h1 in
        let (has_signature, h3) = or_nil-eq-chunk (t.get_signature name).0 _ b h2 in
        let (has_key, h4) = or_nil-eq-chunk (t.get_pubkey name).0 _ b h3 in
        let (signed, compiles, same) = after_verify-eq-chunk name _ b _ h4 in
        let is_signed : IsSigned c (t.get_module name).1 (t.get_signature name).1
            (some (t.get_pubkey name).1) =
          verify-IsSigned c _ _ (some (t.get_pubkey name).1) signed in
        (
          name,
          named,
          there,
          pair-eq _ given same,
          has_signature,
          has_key,
          rw same at compiles,
          rw same at is_signed,
        )
  ]

  -- `equus_loader_load` loads exactly the modules that its table has and can give and that compile.
  pub loader_load-chunk :
      (t : Modules) (args : List LuaValue) (b : Bytes)
      → loader_load load_buffer t args ≡ chunk b
      → (name : Bytes) × (check_string args 0 ≡ some name)
        × (t.has_module name ≡ pos 0)
        × (t.get_module name ≡ (pos 0, b))
        × (load_buffer b name ≡ 0)
  unfolding loader_load
  loader_load-chunk t args b h = elim (Option-cases (check_string args 0)) [
    | inl no_name ↦ cc (rw (no_name, loader_load) at h)
    | inr (name, named) ↦
        let (there, h1) = or_nil-eq-chunk (t.has_module name) _ b (rw (loader_load, named) at h) in
        let (given, h2) = or_nil-eq-chunk (t.get_module name).0 _ b h1 in
        let (compiles, same) = load_chunk-eq-chunk name _ b h2 in
        (name, named, there, pair-eq _ given same, rw same at compiles)
  ]
