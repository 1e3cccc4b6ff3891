-- ===== src/Ws/Receive/Message.antt =====
-- A message arrives whole, however it is fragmented and whatever pings and pongs stand in between.
use omarchy_hardware.Common.{
  ℕ, suc, ◌+◌, ◌≤◌, ◌<◌, ◌≡◌, ap, arith, false, Option, none, some, List, [], ◌∷◌, ◌++◌, length,
  length-append,
}
use omarchy_hardware.Ws.Client.{Recv, chunk, quiet, lost, eof, ok, Python, Client}
use omarchy_hardware.Ws.Client.Stream.{chunks, InTime, no_deadline, before}
use omarchy_hardware.Ws.Client.Takes.{unread}
use omarchy_hardware.Ws.Frame.{max_message_bytes}
use omarchy_hardware.Ws.Frame.Reads.{Steady}
use omarchy_hardware.Ws.Receive.{next_frame, recv_loop, patience, recv_text}
use omarchy_hardware.Ws.Receive.Fragments.{Fragments, fragments-Delivers}

length-chunks : (inbox : List Recv) → length (chunks inbox) ≤ unread inbox
length-chunks [] = omega arith
length-chunks (chunk b bs ∷ inbox) =
    omega (arith, length-append bs (chunks inbox), length-chunks inbox)
length-chunks (quiet ∷ inbox) = omega arith
length-chunks (lost ∷ inbox) = omega arith
length-chunks (eof ∷ inbox) = omega arith

-- The timeout of the call is not reached while the message is read.
abbrev pub Within : Python → Option ℕ → Type 0
Within py none = Unit {0}
Within py (some span) = (i j : ℕ) → py.monotonic j < py.monotonic i + span

-- A message of at most 1048576 bytes that arrives in text and continuation frames, with pings
-- and pongs anywhere before the last of them and the whole cut into chunks in any way, is
-- returned decoded, with nothing of what follows taken, on a client that can send and while no
-- time runs out.
pub recv_text-message :
    (py : Python) (span : Option ℕ) (payload bytes more : List ℕ) (s : Client)
    → Steady py
    → Within py span
    → Fragments false payload bytes
    → length payload ≤ max_message_bytes
    → s.sends ≡ []
    → s.buffer ++ chunks s.inbox ≡ bytes ++ more
    → (s' : Client) × (recv_text py span s ≡ (ok (some (py.decode payload)), s'))
      × (s'.buffer ++ chunks s'.inbox ≡ more)
unfolding recv_text
recv_text-message py span payload bytes more s steady within f fits sends arriving = go span within
  where
    enough : length bytes < patience s
    enough = omega (
      arith,
      ap length arriving,
      length-append s.buffer (chunks s.inbox),
      length-append bytes more,
      length-chunks s.inbox,
    )

    received :
        (deadline : Option ℕ) (s₁ : Client)
        → InTime py deadline
        → s₁.sends ≡ []
        → s₁.buffer ++ chunks s₁.inbox ≡ bytes ++ more
        → (s' : Client) × (recv_loop py (patience s) deadline false [] s₁
            ≡ (ok (some (py.decode payload)), s'))
          × (s'.buffer ++ chunks s'.inbox ≡ more)
    received deadline s₁ t n a =
        let d =
          (fragments-Delivers steady deadline t (patience s) [] more f fits enough).at
            (record s₁ { deadline = deadline }) (record { in_time = t; sends = n; arriving = a }) in
        (d.after, unfold recv_loop next_frame in d.run, d.ready.arriving)

    go :
        (span : Option ℕ)
        → Within py span
        → (s' : Client) × (recv_text py span s ≡ (ok (some (py.decode payload)), s'))
          × (s'.buffer ++ chunks s'.inbox ≡ more)
    go none w = received none s no_deadline sends arriving
    go (some d) w =
        received (some (py.monotonic s.readings + d)) (record s { readings = suc s.readings })
          (before (w s.readings)) sends arriving
