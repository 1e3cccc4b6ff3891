-- ===== src/Flash/Upload/Cleared.antt =====
-- What an upload has checked before it writes anything.
use omarchy_hardware.Common.{
  ◌≡◌, refl, ap, ◌∙◌, Option, none, some, Bool-cases, inl, inr, arith, if◌then◌else◌,
}
use omarchy_hardware.Common.Text.{Text, text_eq, text_eq_iff}
use omarchy_hardware.Errors.{Result, artifact_invalid}
use omarchy_hardware.Flash.Token.{Verified, checked, verify_token}
use omarchy_hardware.Flash.Steps.{tool, Except, ok, raised, ◌>>>◌}
use omarchy_hardware.Flash.Sketch.{check_fqbn, resolve_sketch_dir}
use omarchy_hardware.Flash.Artifact.{resolve_artifact_dir, artifact_digest}
use omarchy_hardware.Flash.Artifact.Hashed.{>>>-ok}
use omarchy_hardware.Flash.Upload.Board.{Snapshot}
use omarchy_hardware.Flash.Upload.{
  Request, World, Checked, of_verified, upload_of, named_artifact, check_request, copy_made,
  artifact_snapshot, uf2_of,
}

-- What has been checked by the time that something is written to the log or to a board.
pub record Cleared (world : World) (request : Request) (snapshot : Snapshot) (uf2 : Option Text)
    : Type 0 where
  pub sketch : Text
  pub artifact : Text
  pub under_root : resolve_sketch_dir world.paths request.sketch_dir request.roots ≡ ok sketch
  pub fqbn_fits : check_fqbn request.fqbn ≡ ok request.fqbn
  pub token_good :
      verify_token world.python request.token (upload_of request sketch artifact) request.now
      ≡ checked (Result.ok tt)
  pub private_copy : world.snapshot ≡ some snapshot
  pub same_build : artifact_digest world.hashing snapshot.tree ≡ ok request.artifact_digest
  pub image : uf2_of world request snapshot ≡ ok uf2

of_verified-ok : (v : Verified) (a : Unit {0}) → of_verified v ≡ ok a → v ≡ checked (Result.ok tt)
unfolding of_verified
of_verified-ok (checked (Result.ok tt)) a h = refl
of_verified-ok (checked (Result.err e)) a h = cc
of_verified-ok Verified.binascii_error a h = cc

check_fqbn-ok : (fqbn fqbn' : Text) → check_fqbn fqbn ≡ ok fqbn' → check_fqbn fqbn ≡ ok fqbn
unfolding check_fqbn
check_fqbn-ok fqbn fqbn' h = ground arith

artifact_snapshot-ok :
    (world : World) (expected : Text) (snapshot : Snapshot)
    → artifact_snapshot world expected ≡ ok snapshot
    → (world.snapshot ≡ some snapshot) × (artifact_digest world.hashing snapshot.tree ≡ ok expected)
unfolding artifact_snapshot
artifact_snapshot-ok world expected snapshot h = go world.snapshot refl h
  where
    go :
        (o : Option Snapshot)
        → world.snapshot ≡ o
        → (copy_made o >>> λ snapshot. artifact_digest world.hashing snapshot.tree >>> λ digest.
            if text_eq digest expected then ok snapshot else raised (tool artifact_invalid))
          ≡ ok snapshot
        → (world.snapshot ≡ some snapshot)
          × (artifact_digest world.hashing snapshot.tree ≡ ok expected)
    go none e h = cc
    go (some copy) e h =
        let (digest, d, k) = >>>-ok (artifact_digest world.hashing copy.tree) _ snapshot h in
        elim (Bool-cases (text_eq digest expected)) [
          | inl same ↦
              let one : ◌≡◌ {A = Except Snapshot} (ok copy) (ok snapshot) = rw same at k in
              let copies : copy ≡ snapshot = cc in
              (e ∙ ap some copies, rw (← copies) (d ∙ ap ok ((text_eq_iff digest expected).0 same)))
          | inr differ ↦
              absurd (let no : raised (tool artifact_invalid) ≡ ok snapshot = rw differ at k in cc)
        ]

pub cleared :
    (world : World) (request : Request) (checks : Checked) (snapshot : Snapshot) (uf2 : Option Text)
    → check_request world request ≡ ok checks
    → artifact_snapshot world request.artifact_digest ≡ ok snapshot
    → uf2_of world request snapshot ≡ ok uf2
    → Cleared world request snapshot uf2
unfolding check_request
cleared world request checks snapshot uf2 h k l =
    let (sketch, root, h₁) =
      >>>-ok (resolve_sketch_dir world.paths request.sketch_dir request.roots) _ checks h in
    let (fqbn, fits, h₂) = >>>-ok (check_fqbn request.fqbn) _ checks h₁ in
    let (u, named, h₃) = >>>-ok (named_artifact request) _ checks h₂ in
    let (artifact, found, h₄) =
      >>>-ok (resolve_artifact_dir world.paths request.artifact_path) _ checks h₃ in
    let (v, good, h₅) =
      >>>-ok
        (of_verified
          (verify_token world.python request.token (upload_of request sketch artifact) request.now))
        _ checks h₄ in
    let (copy, build) = artifact_snapshot-ok world request.artifact_digest snapshot k in
    record {
      sketch = sketch;
      artifact = artifact;
      under_root = root;
      fqbn_fits = check_fqbn-ok request.fqbn fqbn fits;
      token_good = of_verified-ok _ v good;
      private_copy = copy;
      same_build = build;
      image = l;
    }
