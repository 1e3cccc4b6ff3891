-- ===== src/Mqtt/Client/Progress/Rules.antt =====
-- Operations of the client that end and take something off the stream, and how they compose.
use omarchy_hardware.Common.{ℕ, ◌+◌, ◌≤◌, ◌≡◌, ◌≢◌, refl, arith, Bool, true, false, if◌then◌else◌}
use omarchy_hardware.Mqtt.Outcome.{MqttError, Outcome, ok, timeout, err, stuck}
use omarchy_hardware.Mqtt.Client.{Client, M, size, ◌>>=◌, then_do, pure, raise, gets, lift}

-- `m` does not run out of fuel, adds nothing to the stream, and takes `n` at least if it returns.
pub record Takes {A : Type 0} (n : ℕ) (m : M A) : Type 0 where
  pub ends : (s : Client) → (m s).0 ≢ stuck
  pub shrinks : (s : Client) → size (m s).1.inbox ≤ size s.inbox
  pub takes : (s : Client) (a : A) → (m s).0 ≡ ok a → size (m s).1.inbox + n ≤ size s.inbox

module _ {A : Type 0} where
  pub Takes-pure : (a : A) → Takes 0 (pure a)
  Takes-pure a = record {
    ends = λ s e. cc;
    shrinks = λ s. omega arith;
    takes = λ s b h. omega arith;
  }

  pub Takes-raise : (n : ℕ) (e : MqttError) → Takes {A = A} n (raise e)
  Takes-raise n e = record { ends = λ s h. cc; shrinks = λ s. omega arith; takes = λ s b h. cc }

  pub Takes-gets : (f : Client → A) → Takes 0 (gets f)
  Takes-gets f = record {
    ends = λ s e. cc;
    shrinks = λ s. omega arith;
    takes = λ s b h. omega arith;
  }

  pub Takes-lift : (r : Outcome A) → r ≢ stuck → Takes 0 (lift r)
  Takes-lift r h = record {
    ends = λ s. h;
    shrinks = λ s. omega arith;
    takes = λ s b e. omega arith;
  }

  pub Takes-weaken : {n : ℕ} (k : ℕ) {m : M A} → k ≤ n → Takes n m → Takes k m
  Takes-weaken k le t = record {
    ends = t.ends;
    shrinks = t.shrinks;
    takes = λ s a h. omega (arith, t.takes s a h);
  }

  pub Takes-if :
      {n : ℕ} (b : Bool) {m k : M A} → Takes n m → Takes n k → Takes n (if b then m else k)
  Takes-if true tm tk = tm
  Takes-if false tm tk = tk

  pub ends_if :
      (b : Bool) (m k : M A) (s : Client)
      → (m s).0 ≢ stuck
      → (k s).0 ≢ stuck
      → ((if b then m else k) s).0 ≢ stuck
  ends_if true m k s u v = u
  ends_if false m k s u v = v

module _ {A B : Type 0} where
  then_do-facts :
      (n k : ℕ) (f : A → M B) (total : ℕ) (p : Outcome A × Client)
      → p.0 ≢ stuck
      → size p.1.inbox ≤ total
      → ((a : A) → p.0 ≡ ok a → size p.1.inbox + n ≤ total)
      → ((a : A) → Takes k (f a))
      → ((then_do f p).0 ≢ stuck)
        × (size (then_do f p).1.inbox ≤ total)
        × ((b : B) → (then_do f p).0 ≡ ok b → size (then_do f p).1.inbox + (n + k) ≤ total)
  then_do-facts n k f total (ok a, s) u v w t = (
    (t a).ends s,
    omega (arith, (t a).shrinks s),
    λ b h. omega (arith, (t a).takes s b h, w a refl),
  )
  then_do-facts n k f total (timeout, s) u v w t = (λ e. cc, v, λ b h. cc)
  then_do-facts n k f total (err e, s) u v w t = (λ e. cc, v, λ b h. cc)
  then_do-facts n k f total (stuck, s) u v w t = absurd (u refl)

  pub Takes-bind :
      {n k : ℕ} {m : M A} {f : A → M B}
      → Takes n m
      → ((a : A) → Takes k (f a))
      → Takes (n + k) (m >>= f)
  Takes-bind {n} {k} {m} {f} t u = record {
    ends = λ s. (facts s).0;
    shrinks = λ s. (facts s).1;
    takes = λ s. (facts s).2;
  }
    where
      facts :
          (s : Client)
          → ((then_do f (m s)).0 ≢ stuck)
            × (size (then_do f (m s)).1.inbox ≤ size s.inbox)
            × ((b : B)
                → (then_do f (m s)).0 ≡ ok b
                → size (then_do f (m s)).1.inbox + (n + k) ≤ size s.inbox)
      facts s = then_do-facts n k f (size s.inbox) (m s) (t.ends s) (t.shrinks s) (t.takes s) u

  pub Takes-seq :
      {m : M A} {f : A → M B} → Takes 0 m → ((a : A) → Takes 0 (f a)) → Takes 0 (m >>= f)
  Takes-seq = Takes-bind

  -- What follows in a loop may use how much was taken off the stream.
  pub ends_after :
      (n : ℕ) (m : M A) (f : A → M B) (s : Client)
      → Takes n m
      → ((a : A) (s' : Client) → size s'.inbox + n ≤ size s.inbox → (f a s').0 ≢ stuck)
      → ((m >>= f) s).0 ≢ stuck
  ends_after n m f s t u = go (m s) (t.ends s) (t.takes s)
    where
      go :
          (p : Outcome A × Client)
          → p.0 ≢ stuck
          → ((a : A) → p.0 ≡ ok a → size p.1.inbox + n ≤ size s.inbox)
          → (then_do f p).0 ≢ stuck
      go (ok a, s') v w = u a s' (w a refl)
      go (timeout, s') v w = λ e. cc
      go (err e, s') v w = λ e. cc
      go (stuck, s') v w = absurd (v refl)
