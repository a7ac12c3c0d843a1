-- ===== src/Entry/Secret.antt =====
-- Who may call the internal paths, and what a call can do.
use mathlib.Core.Bool.{false≢true}
use mortstack.Prelude.{
  ℕ, ◌<◌, String, ◌≡◌, ◌≢◌, refl, sym, ap, ◌∙◌, ◌↔◌, ◌⊎◌, inl, inr, Bool, true, false, ◌==◌, eq_iff,
  some, List, [], ◌∷◌, length, All, arith, Bool-cases, nat_eq, All-imp, if◌then◌else◌,
}
use mortstack.Js.Bits.{
  bit_or, bit_xor, power, IsWord, bit_or_zero, bit_xor_zero, bit_or-IsWord, bit_xor-IsWord,
}
use mortstack.Js.Try.{Try, gave}
use mortstack.Js.Value.{Value, Fields, text, object, property}
use mortstack.Entry.{Request, Reply, differences, same_units, verify_internal_auth}
use mortstack.Entry.Internal.{
  Effect, evict, is_token_hash, handle_internal, handle_session_purge, purge_hash, read, read_hash,
  evicted, purged_body, reply,
}

differences_zero :
    (acc : ℕ) (gs xs : List ℕ)
    → IsWord acc
    → All IsWord gs
    → All IsWord xs
    → length gs ≡ length xs
    → (differences acc gs xs ≡ 0) ↔ ((acc ≡ 0) × (gs ≡ xs))
unfolding differences
differences_zero acc [] [] a g x l = (λ e. (e, refl), λ e. e.0)
differences_zero acc [] (y ∷ xs) a g x l = absurd (omega arith)
differences_zero acc (y ∷ gs) [] a g x l = absurd (omega arith)
differences_zero acc (y ∷ gs) (z ∷ xs) a (gy, g) (xz, x) l =
    let d = bit_xor y z in
    let (there, back) =
      differences_zero (bit_or acc d) gs xs (bit_or-IsWord acc d) g x (omega arith) in
    let o = bit_or_zero acc d a (bit_xor-IsWord y z) in
    let q = bit_xor_zero y z gy xz in
    (
      λ e. let (e1, e2) = there e in let (ea, ed) = o.0 e1 in (ea, cc (q.0 ed, e2)),
      λ e. back (o.1 (e.0, q.1 (ground (arith, e.1))), ground (arith, e.1)),
    )

same_units_iff :
    (got expected : List ℕ)
    → All IsWord got
    → All IsWord expected
    → (same_units got expected ≡ true) ↔ ((got ≡ expected) × (expected ≢ []))
unfolding same_units power
same_units_iff [] expected g x = (λ e. absurd (false≢true e), λ e. absurd (e.1 (sym e.0)))
same_units_iff (y ∷ gs) expected g x =
    elim (Bool-cases (nat_eq (length (y ∷ gs)) (length expected))) [
      | inl l ↦
          let (there, back) =
            differences_zero 0 (y ∷ gs) expected (omega arith) g x (ground arith) in
          (
            λ e.
                let h = (there (ground (arith, e, l))).1 in (h, λ n. absurd (ground (arith, h, n))),
            λ e. ground (arith, l, back (refl, e.0)),
          )
      | inr l ↦ (λ e. absurd (ground (arith, l, e)), λ e. absurd (ground (arith, l, ap length e.0)))
    ]

-- A header and a secret of 16-bit units: verifyInternalAuth, which compares them without an early end,
-- accepts exactly a header that is the secret, if the secret is not empty.
pub verify_internal_auth_iff :
    (expected : List ℕ) (r : Request) (got : List ℕ)
    → All (λ c. c < 65536) expected
    → All (λ c. c < 65536) got
    → r.secret ≡ some got
    → (verify_internal_auth expected r ≡ true) ↔ ((got ≡ expected) × (expected ≢ []))
unfolding verify_internal_auth power
verify_internal_auth_iff expected r got x g e =
    rw (verify_internal_auth, e)
      (same_units_iff got expected (All-imp (λ c h. omega (arith, h)) got g)
        (All-imp (λ c h. omega (arith, h)) expected x))

purge_of_hash :
    (deletes : String → Bool) (f : Fields) (hash : String)
    → property f "tokenHash" ≡ text hash
    → (reply : Reply) × ((handle_session_purge deletes (gave (object f))
          ≡ gave (reply, if is_token_hash hash then evict hash ∷ [] else []))
        × (reply.status ≡ (if is_token_hash hash then 200 else 400)))
unfolding handle_session_purge purge_hash read read_hash evicted reply
purge_of_hash deletes f hash e = elim (Bool-cases (is_token_hash hash)) [
  | inl t ↦
      (record { status = 200; body = purged_body (deletes hash) }, (rw (e, t) refl, rw t refl))
  | inr t ↦ (record { status = 400; body = "bad tokenHash" }, (rw (e, t) refl, rw t refl))
]

abbrev pub IsRefusal : Try (Reply × List Effect) → Type 0
IsRefusal r =
    (reply : Reply) × ((r ≡ gave (reply, [])) × ((reply.status ≡ 401) ⊎ (reply.status ≡ 405)))

unauthorised : {m a : Type 0} → a ⊎ (m → ⊥) → m → a
unauthorised (inl a) m = a
unauthorised (inr n) m = absurd (n m)

-- A call of an internal path without the secret, or by another method than POST, is refused with 401 or
-- 405, and does nothing; a POST with it to the purge path, whose body has a token hash, evicts this key
-- and no other if it is 64 lower-case hexadecimal digits, also if the deletion fails, and else is
-- answered with 400 and does nothing.
pub handle_internal_guards :
    (expected : List ℕ) (deletes : String → Bool) (reaches : Value → Bool) (show : Value → String)
    (r : Request)
    → ((verify_internal_auth expected r ≡ false) ⊎ (r.method ≢ "POST")
        → IsRefusal (handle_internal expected deletes reaches show r))
      × ((f : Fields) (hash : String)
          → verify_internal_auth expected r ≡ true
          → r.method ≡ "POST"
          → r.pathname ≡ "/internal/session/purge"
          → r.json ≡ gave (object f)
          → property f "tokenHash" ≡ text hash
          → (reply : Reply) × ((handle_internal expected deletes reaches show r
                ≡ gave (reply, if is_token_hash hash then evict hash ∷ [] else []))
              × (reply.status ≡ (if is_token_hash hash then 200 else 400))))
unfolding handle_internal reply
handle_internal_guards expected deletes reaches show r = (
  λ refused. elim (Bool-cases (r.method == "POST")) [
    | inl m ↦ (
      record { status = 401; body = "unauthorized" },
      (ground (arith, m, unauthorised refused ((eq_iff r.method "POST").0 m)), inl refl),
    )
    | inr m ↦ (record { status = 405; body = "method not allowed" }, (ground (arith, m), inr refl))
  ],
  λ f hash a m p j e.
      let (reply, (answer, status)) = purge_of_hash deletes f hash e in
      (
        reply,
        (
          ground (
            arith,
            a,
            (eq_iff r.method "POST").1 m,
            (eq_iff r.pathname "/internal/session/purge").1 p,
            j,
          )
              ∙ answer,
          status,
        ),
      ),
)
