-- ===== src/Ws/Client/Takes.antt =====
-- Operations that end and take bytes off the stream, and how they compose.
use omarchy_hardware.Common.{
  ℕ, suc, ◌+◌, ◌≤◌, ◌≡◌, arith, Bool, true, false, List, [], ◌∷◌, length, is_some,
}
use omarchy_hardware.Ws.Client.{
  Recv, chunk, quiet, lost, eof, WsError, Outcome, ok, timeout, waiting, err, Client, M, then_do,
  ◌>>=◌, pure, raise, choose,
}

-- How many bytes have still to be read.
abbrev pub unread : List Recv → ℕ
unread [] = 0
unread (chunk b bs ∷ inbox) = suc (length bs) + unread inbox
unread (quiet ∷ inbox) = unread inbox
unread (lost ∷ inbox) = unread inbox
unread (eof ∷ inbox) = unread inbox

abbrev pub size : Client → ℕ
size s = length s.buffer + unread s.inbox

abbrev pub timed : Client → Bool
timed s = is_some s.deadline

-- What became of the state `s`: the fuel did not run out; a call that blocks had no deadline; with
-- a result, `n` bytes at least are gone, and a deadline is still there.
pub data Left {A : Type 0} (n : ℕ) (s : Client) : Outcome A × Client → Type 0 where
  result :
      {a : A} {s' : Client}
      → size s' + n ≤ size s
      → (timed s ≡ true → timed s' ≡ true)
      → Left n s (ok a, s')
  late : {s' : Client} → Left n s (timeout, s')
  blocked : {s' : Client} → timed s ≡ false → Left n s (waiting, s')
  raised : {e : WsError} {s' : Client} → Left n s (err e, s')

pub record Takes {A : Type 0} (n : ℕ) (m : M A) : Type 0 where
  pub at : (s : Client) → Left n s (m s)

module _ {A : Type 0} where
  -- From an earlier state, with a weaker demand.
  pub Left-since :
      (n k : ℕ) (s s₀ : Client) {p : Outcome A × Client}
      → size s + k ≤ size s₀ + n
      → (timed s₀ ≡ true → timed s ≡ true)
      → Left n s p
      → Left k s₀ p
  Left-since n k s s₀ le t (result h u) = result (omega arith) (λ e. u (t e))
  Left-since n k s s₀ le t late = late
  Left-since n k s s₀ le t (blocked h) = blocked (ground (arith, t))
  Left-since n k s s₀ le t raised = raised

  pub Takes-weaken : {n : ℕ} (k : ℕ) {m : M A} → k ≤ n → Takes n m → Takes k m
  Takes-weaken {n} k le t = record { at = λ s. Left-since n k s s (omega arith) (λ e. e) (t.at s) }

  pub Takes-pure : (a : A) → Takes 0 (pure a)
  Takes-pure a = record { at = λ s. result (omega arith) (λ e. e) }

  pub Takes-raise : (n : ℕ) (e : WsError) → Takes {A = A} n (raise e)
  Takes-raise n e = record { at = λ s. raised }

  pub Takes-choose : {n : ℕ} (b : Bool) {m k : M A} → Takes n m → Takes n k → Takes n (choose b m k)
  Takes-choose true t u = record { at = λ s. t.at s }
  Takes-choose false t u = record { at = λ s. u.at s }

module _ {A B : Type 0} where
  pub then_do-Left :
      (n k : ℕ) (s : Client) (f : A → M B) {p : Outcome A × Client}
      → Left n s p
      → ((a : A) → Takes k (f a))
      → Left (n + k) s (then_do f p)
  then_do-Left n k s f (result {a} {s'} h u) t =
      Left-since k (n + k) s' s (omega arith) u ((t a).at s')
  then_do-Left n k s f late t = late
  then_do-Left n k s f (blocked h) t = blocked h
  then_do-Left n k s f raised t = raised

  pub Takes-bind :
      {n k : ℕ} {m : M A} {f : A → M B}
      → Takes n m
      → ((a : A) → Takes k (f a))
      → Takes (n + k) (m >>= f)
  Takes-bind {n} {k} {m} {f} t u = record { at = λ s. then_do-Left n k s f (t.at s) u }
