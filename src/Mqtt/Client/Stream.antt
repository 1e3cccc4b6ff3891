-- ===== src/Mqtt/Client/Stream.antt =====
-- `_recv_exact` on a stream: what it takes and what it leaves, however the stream is cut into chunks.
use omarchy_hardware.Common.{ℕ, ◌≡◌, refl, ap, true, List, [], ◌∷◌, ◌++◌, length, arith}
use omarchy_hardware.Mqtt.Outcome.{ok}
use omarchy_hardware.Mqtt.Client.{
  Client, Recv, chunk, late, lost, eof, put_back, recv_loop, recv_exact, recv_byte,
}

-- The bytes that arrive before anything else happens.
unfoldable pub arriving : List Recv → List ℕ
arriving [] = []
arriving (chunk b bs ∷ inbox) = b ∷ (bs ++ arriving inbox)
arriving (late ∷ inbox) = []
arriving (lost ∷ inbox) = []
arriving (eof ∷ inbox) = []

arriving-put_back :
    (bs : List ℕ) (inbox : List Recv) → arriving (put_back bs inbox) ≡ bs ++ arriving inbox
unfolding arriving
arriving-put_back [] inbox = refl
arriving-put_back (b ∷ bs) inbox = refl

arriving-chunk :
    (b x : ℕ) (bs zs : List ℕ) (inbox : List Recv)
    → arriving (chunk b bs ∷ inbox) ≡ x ∷ zs
    → (b ≡ x) × (arriving (put_back bs inbox) ≡ zs)
unfolding arriving
arriving-chunk b x bs zs inbox h = (cc, rw (arriving-put_back bs inbox) (cc))

recv_loop-arriving :
    (xs ys : List ℕ) (inbox : List Recv)
    → arriving inbox ≡ xs ++ ys
    → (inbox' : List Recv) × (recv_loop (length xs) inbox ≡ (ok xs, inbox'))
      × (arriving inbox' ≡ ys)
unfolding recv_loop
recv_loop-arriving [] ys inbox h = (inbox, refl, h)
recv_loop-arriving (x ∷ xs) ys [] h = unfold arriving in cc
recv_loop-arriving (x ∷ xs) ys (late ∷ inbox) h = unfold arriving in cc
recv_loop-arriving (x ∷ xs) ys (lost ∷ inbox) h = unfold arriving in cc
recv_loop-arriving (x ∷ xs) ys (eof ∷ inbox) h = unfold arriving in cc
recv_loop-arriving (x ∷ xs) ys (chunk b bs ∷ inbox) h =
    let (e, rest) = arriving-chunk b x bs (xs ++ ys) inbox h in
    let (inbox', r, a) = recv_loop-arriving xs ys (put_back bs inbox) rest in
    (inbox', rw r (ap (λ t. (ok (t ∷ xs), inbox')) e), a)

pub recv_exact-arriving :
    (xs ys : List ℕ) (s : Client)
    → s.connected ≡ true
    → arriving s.inbox ≡ xs ++ ys
    → (inbox' : List Recv) × (recv_exact (length xs) s ≡ (ok xs, record s { inbox = inbox' }))
      × (arriving inbox' ≡ ys)
unfolding recv_exact
recv_exact-arriving xs ys s c h =
    let (inbox', e, a) = recv_loop-arriving xs ys s.inbox h in (inbox', ground (arith, e), a)

pub recv_byte-arriving :
    (b : ℕ) (ys : List ℕ) (s : Client)
    → s.connected ≡ true
    → arriving s.inbox ≡ b ∷ ys
    → (inbox' : List Recv) × (recv_byte s ≡ (ok b, record s { inbox = inbox' }))
      × (arriving inbox' ≡ ys)
recv_byte-arriving b ys s c h =
    let (inbox', e, a) = recv_exact-arriving (b ∷ []) ys s c h in
    (inbox', unfold recv_byte in ground (arith, e), a)
