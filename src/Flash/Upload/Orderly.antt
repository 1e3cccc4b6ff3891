-- ===== src/Flash/Upload/Orderly.antt =====
-- An upload goes in its order.
use mathlib.Core.Path.{subst}
use omarchy_hardware.Common.{◌≡◌, refl, sym, Option, none, some, List, [], ◌∷◌, ◌++◌}
use omarchy_hardware.Common.Text.{Text}
use omarchy_hardware.Flash.Steps.{
  Except, ok, raised, Event, log_started, M, then_do, ◌>>=◌, ◌>>◌, lift,
}
use omarchy_hardware.Flash.Upload.Board.{Snapshot}
use omarchy_hardware.Flash.Upload.Cleared.{Cleared, cleared}
use omarchy_hardware.Flash.Upload.{
  Request, World, Checked, check_request, artifact_snapshot, uf2_of, before_write,
  prepare_upload_log, guarded_write, Reply, upload_sketch,
}
use omarchy_hardware.Flash.Upload.Order.{
  Agreed, not_asked, agreed, asking, Orderly, nothing_done, only_asked, not_logged,
}
use omarchy_hardware.Flash.Upload.Closing.{
  write_and_keep-Adds, close_and_reply, guarded-Closed, Closed-Orderly,
}

-- What follows the call of `before_write`.
abbrev log_and_write : World → Request → Snapshot → Option Text → M Reply
log_and_write world request snapshot uf2 =
    prepare_upload_log world >> (guarded_write world request snapshot uf2 >>= close_and_reply world)

log_and_write-Orderly :
    (world : World) (request : Request) (snapshot : Snapshot) (uf2 : Option Text)
    → Cleared world request snapshot uf2
    → Agreed world.asks
    → Orderly world request (log_and_write world request snapshot uf2 (asking world.asks))
unfolding prepare_upload_log guarded_write
log_and_write-Orderly world request snapshot uf2 c a = go world.require refl
  where
    start : List Event
    start = asking world.asks ++ log_started ∷ []

    go :
        (r : Except (Unit {0}))
        → world.require ≡ r
        → Orderly world request (
            then_do
              (λ _. guarded_write world request snapshot uf2 >>= close_and_reply world)
              (r, start))
    go (ok u) e = Closed-Orderly world request snapshot uf2 c a e (
        guarded-Closed world request snapshot uf2 start
          (write_and_keep-Adds world request snapshot uf2 start))
    go (raised x) e = not_logged c a

before_write-Orderly :
    (world : World) (request : Request) (k : M Reply)
    → (Agreed world.asks → Orderly world request (k (asking world.asks)))
    → Orderly world request ((before_write world.asks >> k) [])
unfolding before_write
before_write-Orderly world request k h = go world.asks refl
  where
    moved :
        (o : Option (Except (Unit {0})))
        → world.asks ≡ o
        → Orderly world request (k (asking world.asks))
        → Orderly world request (k (asking o))
    moved o e = subst (λ o. Orderly world request (k (asking o))) e

    go :
        (o : Option (Except (Unit {0})))
        → world.asks ≡ o
        → Orderly world request ((before_write o >> k) [])
    go none e = moved none e (h (subst Agreed (sym e) not_asked))
    go (some (ok u)) e = moved (some (ok u)) e (h (subst Agreed (sym e) agreed))
    go (some (raised x)) e = subst (λ o. Orderly world request (raised x, asking o)) e only_asked

-- An upload raises before anything is done or when the caller is asked; or its sketch is under
-- a root, its FQBN and token are good and the private copy has the digest of the request, and
-- it raises when its start cannot be recorded; or, with all that, the start is recorded, then
-- there is one write to the board, then one offer of the ELF at most, then one record of the
-- end, and a reply only when that was recorded.
pub upload_sketch-Orderly :
    (world : World) (request : Request) → Orderly world request (upload_sketch world request [])
unfolding upload_sketch
upload_sketch-Orderly world request = checks (check_request world request) refl
  where
    write : Snapshot → Option Text → M Reply
    write snapshot uf2 = before_write world.asks >> log_and_write world request snapshot uf2

    images :
        (c : Checked) (snapshot : Snapshot) (r : Except (Option Text))
        → check_request world request ≡ ok c
        → artifact_snapshot world request.artifact_digest ≡ ok snapshot
        → uf2_of world request snapshot ≡ r
        → Orderly world request (then_do (write snapshot) (r, []))
    images c snapshot (ok uf2) h k l =
        before_write-Orderly world request (log_and_write world request snapshot uf2) λ a.
          log_and_write-Orderly world request snapshot uf2
            (cleared world request c snapshot uf2 h k l) a
    images c snapshot (raised e) h k l = nothing_done

    builds :
        (c : Checked) (r : Except Snapshot)
        → check_request world request ≡ ok c
        → artifact_snapshot world request.artifact_digest ≡ r
        → Orderly world request
            (then_do (λ snapshot. lift (uf2_of world request snapshot) >>= write snapshot) (r, []))
    builds c (ok snapshot) h k = images c snapshot (uf2_of world request snapshot) h k refl
    builds c (raised e) h k = nothing_done

    checks :
        (r : Except Checked)
        → check_request world request ≡ r
        → Orderly world request (
            then_do
              (λ _. lift (artifact_snapshot world request.artifact_digest) >>= λ snapshot.
                lift (uf2_of world request snapshot) >>= write snapshot)
              (r, []))
    checks (ok c) h = builds c (artifact_snapshot world request.artifact_digest) h refl
    checks (raised e) h = nothing_done
