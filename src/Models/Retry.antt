-- ===== src/Models/Retry.antt =====
-- models/retry.py: a model that streams again after a transient failure of the connection. The
-- classes of such failures are third parties', so a parameter tells them.
use milky_frog_lite.Prelude.{
  ℕ, ◌∷◌, ◌<◌, Bool, List, [], suc, ◌-◌, Option, All, none, length, ◌≤◌, ◌≡◌, some, arith, zero,
  inr, Bool-cases, if◌then◌else◌, false, subst, inl, ◌⊎◌, refl, ap,
}
use Prim.Native.Nat.{ℕ, suc}
use milky_frog_lite.Events.{Raised}
use milky_frog_lite.Events.Loop.Model.{
  Chunk, text_delta, reasoning_delta, stream_done, stream_raises,
}

-- The wrapped model, by the number of the attempt, `is_retriable_model_error`, and `max_attempts`.
pub record RetryingModel : Type 0 where
  pub inner : ℕ → List Chunk
  pub is_retriable : Raised → Bool
  pub max_attempts : ℕ

-- What is yielded, and the attempts after which the user was notified and the call repeated.
pub record Retried : Type 0 where
  pub chunks : List Chunk
  pub notified : List ℕ

abbrev after_chunk : Chunk → Retried → Retried
after_chunk c r = record r { chunks = c ∷ r.chunks }

-- One attempt: its chunks are yielded up to the first exception; `again` is the loop from the next
-- attempt on, if there is one.
unfoldable pub one_attempt : (Raised → Bool) → ℕ → List Chunk → Option Retried → Retried
one_attempt is_retriable attempt [] again = record { chunks = []; notified = [] }
one_attempt is_retriable attempt (stream_raises e ∷ cs) none = record {
  chunks = stream_raises e ∷ [];
  notified = [];
}
one_attempt is_retriable attempt (stream_raises e ∷ cs) (some again) =
    if is_retriable e
    then record again { notified = attempt ∷ again.notified }
    else record { chunks = stream_raises e ∷ []; notified = [] }
one_attempt is_retriable attempt (text_delta t ∷ cs) again =
    after_chunk (text_delta t) (one_attempt is_retriable attempt cs again)
one_attempt is_retriable attempt (reasoning_delta t ∷ cs) again =
    after_chunk (reasoning_delta t) (one_attempt is_retriable attempt cs again)
one_attempt is_retriable attempt (stream_done r ∷ cs) again =
    after_chunk (stream_done r) (one_attempt is_retriable attempt cs again)

module _ (model : RetryingModel) where
  -- The attempts from one on, with as many left behind it.
  unfoldable pub attempts : ℕ → ℕ → Retried
  unfolding one_attempt
  attempts zero attempt = one_attempt model.is_retriable attempt (model.inner attempt) none
  attempts (suc left) attempt =
      one_attempt model.is_retriable attempt (model.inner attempt)
        (some (attempts left (suc attempt)))

  -- The loop over `range(1, max_attempts + 1)`.
  unfoldable pub retried_from : ℕ → Retried
  unfolding attempts
  retried_from zero = record { chunks = []; notified = [] }
  retried_from (suc left) = attempts left 1

  unfoldable pub retrying_stream : Retried
  unfolding retried_from
  retrying_stream = retried_from model.max_attempts

-- An exception that is yielded.
abbrev pub raised_in : List Chunk → List Raised
raised_in [] = []
raised_in (stream_raises e ∷ cs) = e ∷ []
raised_in (text_delta t ∷ cs) = raised_in cs
raised_in (reasoning_delta t ∷ cs) = raised_in cs
raised_in (stream_done r ∷ cs) = raised_in cs

-- A retried call gave up after the attempts that were left, or at an exception that is no failure
-- of the connection.
abbrev pub GaveUp : (Raised → Bool) → ℕ → Retried → Type 0
GaveUp is_retriable left r =
    (length r.notified ≤ left)
    × All (λ e. (is_retriable e ≡ false) ⊎ (length r.notified ≡ left)) (raised_in r.chunks)

module _ (is_retriable : Raised → Bool) (attempt : ℕ) where
  one_attempt-none :
      (cs : List Chunk) → GaveUp is_retriable 0 (one_attempt is_retriable attempt cs none)
  unfolding one_attempt
  one_attempt-none [] = (omega arith, tt)
  one_attempt-none (stream_raises e ∷ cs) = (omega arith, (inr refl, tt))
  one_attempt-none (text_delta t ∷ cs) = one_attempt-none cs
  one_attempt-none (reasoning_delta t ∷ cs) = one_attempt-none cs
  one_attempt-none (stream_done r ∷ cs) = one_attempt-none cs

  shifted :
      (left : ℕ) (again : Retried) (es : List Raised)
      → All (λ e. (is_retriable e ≡ false) ⊎ (length again.notified ≡ left)) es
      → All (λ e. (is_retriable e ≡ false) ⊎ (suc (length again.notified) ≡ suc left)) es
  shifted left again [] h = tt
  shifted left again (e ∷ es) (inl x, h) = (inl x, shifted left again es h)
  shifted left again (e ∷ es) (inr x, h) = (inr (ap (λ n. suc n) x), shifted left again es h)

  one_attempt-some :
      (left : ℕ) (again : Retried) (cs : List Chunk)
      → GaveUp is_retriable left again
      → GaveUp is_retriable (suc left) (one_attempt is_retriable attempt cs (some again))
  unfolding one_attempt
  one_attempt-some left again [] h = (omega arith, tt)
  one_attempt-some left again (stream_raises e ∷ cs) h = elim (Bool-cases (is_retriable e)) [
    | inl y ↦
        rw (y, one_attempt) (omega (arith, h.0), shifted left again (raised_in again.chunks) h.1)
    | inr n ↦ rw (n, one_attempt) (omega arith, (inl n, tt))
  ]
  one_attempt-some left again (text_delta t ∷ cs) h = one_attempt-some left again cs h
  one_attempt-some left again (reasoning_delta t ∷ cs) h = one_attempt-some left again cs h
  one_attempt-some left again (stream_done r ∷ cs) h = one_attempt-some left again cs h

module _ (model : RetryingModel) where
  attempts-GaveUp :
      (left attempt : ℕ) → GaveUp model.is_retriable left (attempts model left attempt)
  unfolding attempts
  attempts-GaveUp zero attempt = one_attempt-none model.is_retriable attempt (model.inner attempt)
  attempts-GaveUp (suc left) attempt =
      one_attempt-some model.is_retriable attempt left _ (model.inner attempt)
        (attempts-GaveUp left (suc attempt))

  retried_from-GaveUp : (n : ℕ) → 0 < n → GaveUp model.is_retriable (n - 1) (retried_from model n)
  unfolding retried_from
  retried_from-GaveUp zero p = absurd (omega (arith, p))
  retried_from-GaveUp (suc n) p =
      subst (λ k. GaveUp model.is_retriable k (attempts model n 1)) (omega arith)
        (attempts-GaveUp n 1)

  -- With one attempt at least, a stream is repeated less often than there are attempts; and an exception is passed on only if
  -- it is no failure of the connection, or if the stream was repeated as often as it may be.
  pub retrying_stream-GaveUp :
      0 < model.max_attempts
      → GaveUp model.is_retriable (model.max_attempts - 1) (retrying_stream model)
  unfolding retrying_stream
  retrying_stream-GaveUp p = retried_from-GaveUp model.max_attempts p
