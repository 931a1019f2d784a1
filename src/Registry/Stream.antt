-- ===== src/Registry/Stream.antt =====
-- `CancellableStream`: reads and writes fail once its token is cancelled. The stream that it wraps is
-- a parameter, with its polls as functions of its state.
use wkp.Base.{ℕ, ◌≡◌, refl, Bool, true, false, ◌||◌, Option, List, [], ◌∷◌, arith, if◌then◌else◌}
use wkp.Registry.Defs.{Guard}

pub data Poll {ℓ} (A : Type ℓ) : Type ℓ where
  pending : Poll A
  ready : A → Poll A

pub data IoResult {ℓ} (A : Type ℓ) : Type ℓ where
  ok : A → IoResult A
  connection_aborted io_error : IoResult A

pub record CancellableStream {ℓ} (S : Type ℓ) : Type ℓ where
  pub inner : S
  pub token : ℕ
  pub is_cancelled : Bool
  pub guard : Option Guard

-- As many failures as calls.
abbrev pub aborts {κ ℓ} : {B : Type ℓ} {A : Type κ} → List B → List (Poll (IoResult A))
aborts [] = []
aborts (_ ∷ calls) = ready connection_aborted ∷ aborts calls

module _ {ℓ} {S : Type ℓ} where
  pub new : S → ℕ → Option Guard → CancellableStream S
  new inner token guard = record {
    inner = inner;
    token = token;
    is_cancelled = false;
    guard = guard;
  }

  -- The watcher is ready exactly when the token is cancelled. The flag is the `Err` of the result.
  unfoldable pub poll_cancelled : (ℕ → Bool) → CancellableStream S → CancellableStream S × Bool
  poll_cancelled cancelled s =
      let seen = s.is_cancelled || cancelled s.token in (record s { is_cancelled = seen }, seen)

  -- `poll_read`, `poll_write` and `poll_flush`: the check, then the poll of the wrapped stream.
  unfoldable pub poll_checked {κ} :
      {A : Type κ}
      → (ℕ → Bool)
      → (S → S × Poll (IoResult A))
      → CancellableStream S
      → CancellableStream S × Poll (IoResult A)
  unfolding poll_cancelled
  poll_checked cancelled poll s =
      let (s', aborted) = poll_cancelled cancelled s in
      let (inner, result) = poll s.inner in
      if aborted then (s', ready connection_aborted) else (record s' { inner = inner }, result)

  -- `poll_shutdown` does not check.
  unfoldable pub poll_shutdown {κ} :
      {A : Type κ}
      → (S → S × Poll (IoResult A))
      → CancellableStream S
      → CancellableStream S × Poll (IoResult A)
  poll_shutdown poll s = let (inner, result) = poll s.inner in (record s { inner = inner }, result)

  -- Checked polls one after the other, each with the tokens as they are then.
  abbrev pub polls {κ} :
      {A : Type κ}
      → List ((ℕ → Bool) × (S → S × Poll (IoResult A)))
      → CancellableStream S
      → CancellableStream S × List (Poll (IoResult A))
  polls [] s = (s, [])
  polls ((cancelled, poll) ∷ calls) s =
      let (next, result) = poll_checked cancelled poll s in
      let (last, results) = polls calls next in (last, result ∷ results)

  polls_aborted {κ} :
      {A : Type κ} (calls : List ((ℕ → Bool) × (S → S × Poll (IoResult A)))) (inner : S) (token : ℕ)
      (guard : Option Guard)
      → polls calls (record { inner = inner; token = token; is_cancelled = true; guard = guard })
        ≡ (
          record { inner = inner; token = token; is_cancelled = true; guard = guard },
          aborts calls,
        )
  unfolding poll_checked
  polls_aborted [] inner token guard = refl
  polls_aborted ((cancelled, poll) ∷ calls) inner token guard =
      rw (polls_aborted calls inner token guard) refl

  -- From the first checked poll at which the token is cancelled, that poll and every later one
  -- fails, and none of them touches the wrapped stream.
  pub polls_after_cancel {κ} :
      {A : Type κ} (cancelled : ℕ → Bool) (poll : S → S × Poll (IoResult A))
      (calls : List ((ℕ → Bool) × (S → S × Poll (IoResult A)))) (s : CancellableStream S)
      → cancelled s.token ≡ true
      → polls ((cancelled, poll) ∷ calls) s
        ≡ (record s { is_cancelled = true }, ready connection_aborted ∷ aborts calls)
  unfolding poll_checked
  polls_after_cancel cancelled poll calls s h =
      let seen : (s.is_cancelled || cancelled s.token) ≡ true = ground (arith, h) in
      rw (seen, polls_aborted calls s.inner s.token s.guard) refl
