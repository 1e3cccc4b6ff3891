-- ===== src/Ws/Client/Stream.antt =====
-- Bytes that arrive in time are read, however the stream is cut into chunks.
use mathlib.Core.List.{append_assoc}
use omarchy_hardware.Common.{
  ℕ, suc, ◌≤◌, ◌<◌, ◌≡◌, refl, ap, ◌∙◌, arith, leb, le→leb, Bool, true, false, Option, none, some,
  List, [], ◌∷◌, ◌++◌, length, length-append, take, drop, Bool-cases, inl, inr,
}
use omarchy_hardware.Ws.Client.{
  Recv, chunk, quiet, lost, eof, ok, Python, Client, M, ◌>>=◌, then_do, pure, choose,
  remaining_until, remaining, fill, recv_exact,
}

-- The bytes that arrive before anything else happens.
abbrev pub chunks : List Recv → List ℕ
chunks (chunk b bs ∷ inbox) = b ∷ (bs ++ chunks inbox)
chunks _ = []

-- No reading of the clock is at the deadline or past it.
pub data InTime (py : Python) : Option ℕ → Type 0 where
  no_deadline : InTime py none
  before : {d : ℕ} → ((i : ℕ) → py.monotonic i < d) → InTime py (some d)

-- A client on which `bytes` arrive in time, and that can send.
pub record Ready (py : Python) (bytes : List ℕ) (s : Client) : Type 0 where
  pub in_time : InTime py s.deadline
  pub sends : s.sends ≡ []
  pub arriving : s.buffer ++ chunks s.inbox ≡ bytes

pub record Delivered {A : Type 0} (py : Python) (m : M A) (s : Client) (a : A) (more : List ℕ)
    : Type 0 where
  pub after : Client
  pub run : m s ≡ (ok a, after)
  pub ready : Ready py more after

-- Where `bytes` arrive, `m` returns `a` and leaves `more`.
pub record Delivers {A : Type 0} (py : Python) (m : M A) (bytes : List ℕ) (a : A) (more : List ℕ)
    : Type 0 where
  pub at : (s : Client) → Ready py bytes s → Delivered py m s a more

module _ {A B : Type 0} {py : Python} where
  pub Delivers-bind :
      (f : A → M B) {m : M A} {bytes mid more : List ℕ} {a : A} {b : B}
      → Delivers py m bytes a mid
      → Delivers py (f a) mid b more
      → Delivers py (m >>= f) bytes b more
  Delivers-bind f {a = a} h k = record {
    at = λ s r.
        let d = h.at s r in
        let d' = k.at d.after d.ready in
        record { after = d'.after; run = ap (then_do f) d.run ∙ d'.run; ready = d'.ready };
  }

module _ {A : Type 0} {py : Python} where
  pub Delivers-pure : (a : A) (bytes : List ℕ) → Delivers py (pure a) bytes a bytes
  Delivers-pure a bytes = record { at = λ s r. record { after = s; run = refl; ready = r } }

  pub Delivers-first :
      (k : M A) {b : Bool} {m : M A} {bytes more : List ℕ} {a : A}
      → b ≡ true
      → Delivers py m bytes a more
      → Delivers py (choose b m k) bytes a more
  Delivers-first k e h = record {
    at = λ s r. let d = h.at s r in record { after = d.after; run = rw e d.run; ready = d.ready };
  }

  pub Delivers-second :
      (m : M A) {b : Bool} {k : M A} {bytes more : List ℕ} {a : A}
      → b ≡ false
      → Delivers py k bytes a more
      → Delivers py (choose b m k) bytes a more
  Delivers-second m e h = record {
    at = λ s r. let d = h.at s r in record { after = d.after; run = rw e d.run; ready = d.ready };
  }

remaining_until-InTime :
    (py : Python) {d : Option ℕ} (s : Client)
    → InTime py d
    → (r : ℕ) × (remaining_until py d s ≡ (ok tt, record s { readings = r }))
remaining_until-InTime py s no_deadline = (s.readings, refl)
remaining_until-InTime py s (before {d} h) =
    let early : leb d (py.monotonic s.readings) ≡ false = ground (arith, h s.readings) in
    (suc s.readings, rw early refl)

pub remaining-Delivers : (py : Python) (bytes : List ℕ) → Delivers py (remaining py) bytes tt bytes
unfolding remaining
remaining-Delivers py bytes = record {
  at = λ s r.
      let (reading, e) = remaining_until-InTime py s r.in_time in
      record {
        after = record s { readings = reading };
        run = e;
        ready = record { in_time = r.in_time; sends = r.sends; arriving = r.arriving };
      };
}

-- After the loop the bytes are in the buffer.
record FilledUp (py : Python) (count : ℕ) (inbox : List Recv) (s : Client) (bytes : List ℕ)
    : Type 0 where
  after : Client
  run : fill py count inbox s ≡ (ok tt, after)
  ready : Ready py bytes after
  enough : count ≤ length after.buffer

at_once :
    (py : Python) (count : ℕ) (inbox : List Recv) (s : Client) (bytes : List ℕ)
    → leb count (length s.buffer) ≡ true
    → Ready py bytes s
    → FilledUp py count inbox s bytes
at_once py count inbox s bytes t r = record {
  after = s;
  run = stops inbox;
  ready = r;
  enough = ground (arith, t);
}
  where
    stops : (inbox : List Recv) → fill py count inbox s ≡ (ok tt, s)
    stops [] = unfold fill in rw t refl
    stops (chunk b bs ∷ inbox) = unfold fill in rw t refl
    stops (quiet ∷ inbox) = unfold fill in rw t refl
    stops (lost ∷ inbox) = unfold fill in rw t refl
    stops (eof ∷ inbox) = unfold fill in rw t refl

-- No chunk comes any more, but the bytes are there.
all_buffered :
    (count : ℕ) (buffer rest bytes : List ℕ)
    → buffer ++ rest ≡ bytes
    → rest ≡ []
    → count ≤ length bytes
    → count ≤ length buffer
all_buffered count buffer rest bytes e none_left h =
    omega (arith, length-append buffer rest, ap length e, ap length none_left)

filled_up :
    (py : Python) (count : ℕ) (inbox : List Recv) (s : Client) (bytes : List ℕ)
    → s.inbox ≡ inbox
    → count ≤ length bytes
    → Ready py bytes s
    → FilledUp py count inbox s bytes
unfolding fill remaining
filled_up py count (chunk b bs ∷ inbox) s bytes e n r =
    elim (Bool-cases (leb count (length s.buffer))) [
      | inl enough ↦ at_once py count (chunk b bs ∷ inbox) s bytes enough r
      | inr short ↦
          let (reading, go_on) = remaining_until-InTime py s r.in_time in
          let grown : Client = record s {
            readings = reading;
            buffer = s.buffer ++ (b ∷ bs);
            inbox = inbox;
          } in
          let still : (s.buffer ++ (b ∷ bs)) ++ chunks inbox ≡ bytes =
            append_assoc s.buffer (b ∷ bs) (chunks inbox) ∙ rw e at r.arriving in
          let f =
            filled_up py count inbox grown bytes refl n
              (record { in_time = r.in_time; sends = r.sends; arriving = still }) in
          record {
            after = f.after;
            run = rw (short, go_on) f.run;
            ready = f.ready;
            enough = f.enough;
          }
    ]
filled_up py count inbox s bytes e n r =
    let enough = all_buffered count s.buffer (chunks s.inbox) bytes r.arriving (rw e refl) n in
    at_once py count inbox s bytes (le→leb _ _ enough) r

pub recv_exact-Delivers :
    (py : Python) (xs ys : List ℕ) → Delivers py (recv_exact py (length xs)) (xs ++ ys) xs ys
unfolding recv_exact
recv_exact-Delivers py xs ys = record {
  at = λ s r.
      let n : length xs ≤ length (xs ++ ys) = omega (arith, length-append xs ys) in
      let f = filled_up py (length xs) s.inbox s (xs ++ ys) refl n r in
      let (taken, left) =
        cut xs ys f.after.buffer (chunks f.after.inbox) f.enough f.ready.arriving in
      record {
        after = record f.after { buffer = drop (length xs) f.after.buffer };
        run = rw (f.run, taken) refl;
        ready = record { in_time = f.ready.in_time; sends = f.ready.sends; arriving = left };
      };
}
  where
    cut :
        (xs ys buffer rest : List ℕ)
        → length xs ≤ length buffer
        → buffer ++ rest ≡ xs ++ ys
        → (take (length xs) buffer ≡ xs) × (drop (length xs) buffer ++ rest ≡ ys)
    cut [] ys buffer rest h e = (refl, e)
    cut (x ∷ xs) ys [] rest h e = absurd (omega arith)
    cut (x ∷ xs) ys (b ∷ buffer) rest h e =
        let (t, d) = cut xs ys buffer rest (omega arith) (cc) in (rw t (ap (λ z. z ∷ xs) (cc)), d)
