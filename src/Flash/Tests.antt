-- ===== src/Flash/Tests.antt =====
-- A token, and the theorem about it.
use omarchy_hardware.Common.{
  ℕ, ◌+◌, ◌-◌, ◌*◌, ◌/◌, ◌≤◌, ◌≡◌, ◌↔◌, refl, ap, Option, none, some, [], ◌∷◌, ◌++◌, arith, ◌⊎◌,
  inl, inr, List, map, true, false, sym, ◌∙◌,
}
use omarchy_hardware.Common.Text.{Text, codes, split, cons_head, starts_with, text_eq, text_eq_iff}
use omarchy_hardware.Common.Words.{word, value_of, length-word}
use omarchy_hardware.Errors.{Result}
use omarchy_hardware.Flash.Steps.{
  Except, exit, returned, asked, log_started, ran, offered, log_finished,
}
use omarchy_hardware.Flash.Artifact.{
  File, Hashing, Tree, holds, nothing, file, special, files_under, sort_files, hash_files,
  hash_file, hash_path, hash_content, artifact_digest, digest_files, insert_file,
  resolve_artifact_dir,
}
use omarchy_hardware.Flash.Artifact.Hashed.{HashedIn, content_of, whole, view}
use omarchy_hardware.Flash.Artifact.Injective.{artifact_digest-same}
use omarchy_hardware.Flash.Token.{
  Upload, Python, mint_token, checked, verify_token, check_parts, check_signature, compare_digest,
  split_last, token_ttl_seconds,
}
use omarchy_hardware.Flash.Sketch.{
  resolve_sketch_dir, under_a_root, is_relative, check_fqbn, fqbn_pattern, fqbn_parts, some_of,
  without_line_feed,
}
use omarchy_hardware.Flash.Upload.{
  World, Request, noted, upload_sketch, check_request, of_verified, artifact_snapshot, uf2_of,
  before_write, prepare_upload_log, guarded_write, note_failure, write_and_keep, write_board,
  close_log, reply, success, upload_arguments,
}
use omarchy_hardware.Flash.Upload.Board.{
  Snapshot, ended, keeps, kept, arduino_cli, keep_flashed_elf, keep_elf, flashed_elf, single_image,
  keep_answer,
}
use omarchy_hardware.Flash.Upload.Order.{Orderly}
use omarchy_hardware.Flash.Upload.Orderly.{upload_sketch-Orderly}
use omarchy_hardware.Flash.Valid.{Laws, verify_token-ok_iff}

abbrev digits_of : Text → Option ℕ
digits_of (c ∷ []) = some (c - 100)
digits_of _ = none

abbrev python : Python
python = record {
  ticks_per_second = 1000;
  payload = λ upload expiry. expiry ∷ (upload.sketch_dir ++ (0 ∷ upload.fqbn));
  hmac = λ bytes. bytes;
  encode64 = λ bytes. bytes;
  decode64 = λ s. some s;
  decimal = λ n. (n + 100) ∷ [];
  parse_int = digits_of;
}

python-Laws : Laws python
python-Laws = record {
  decode-encode = λ bytes. refl;
  parse-decimal = λ n. let back : (n + 100) - 100 ≡ n = omega arith in ap some back;
  decimal-dots = λ n. ground arith;
}

abbrev blink : Upload
blink = record {
  sketch_dir = codes "/home/me/blink";
  fqbn = codes "arduino:avr:uno";
  serial = [];
  artifact_path = [];
  artifact_digest = [];
}

verify_token-ok_iff_example :
    (verify_token python (mint_token python blink 5400) blink 301000 ≡ checked (Result.ok tt)) ↔ (
      (301000 ≤ (5400 / python.ticks_per_second + token_ttl_seconds) * python.ticks_per_second)
      × (python.hmac (python.payload blink (5400 / python.ticks_per_second + token_ttl_seconds))
          ≡ python.hmac
              (python.payload blink (5400 / python.ticks_per_second + token_ttl_seconds))))
verify_token-ok_iff_example = verify_token-ok_iff python python-Laws blink blink 5400 301000

good : verify_token python (mint_token python blink 5400) blink 301000 ≡ checked (Result.ok tt)
good = verify_token-ok_iff_example.1 (omega arith, refl)

abbrev hashing : Hashing
hashing = record {
  sha256 = λ bytes. word 32 (value_of 0 bytes + 7);
  posix = λ parts. some (b'/' ∷ []);
  path_lt = λ a b. false;
  hex = λ bytes. bytes;
}

abbrev built : Tree
built = holds (codes "blink.ino.elf") (file (1 ∷ 2 ∷ [])) nothing

-- The same build, with a socket beside it.
abbrev rebuilt : Tree
rebuilt = holds (codes "s") special built

abbrev elf_file : File
elf_file = record { relative = codes "blink.ino.elf" ∷ []; content = some (1 ∷ 2 ∷ []) }

abbrev elf_bytes : List ℕ
elf_bytes = word 8 1 ++ (b'/' ∷ word 32 (value_of 0 (1 ∷ 2 ∷ []) + 7))

known : (a : List ℕ) → HashedIn hashing (elf_file ∷ []) a → (a ≡ 1 ∷ 2 ∷ []) ⊎ (a ≡ elf_bytes)
unfolding hash_files hash_file hash_path hash_content
known a (content_of f (inr missing) c) = elim missing [ ]
known a (content_of f (inl e) c) = let same : some (1 ∷ 2 ∷ []) ≡ some a = rw e at c in inl (cc)
known a (whole h) = let same : Except.ok elf_bytes ≡ Except.ok a = h in inr (cc)

hashes_differ : text_eq (hashing.sha256 (1 ∷ 2 ∷ [])) (hashing.sha256 elf_bytes) ≡ false
unfolding text_eq
hashes_differ = refl

false-ne-true : false ≡ true → ⊥
false-ne-true e = cc

no_collision : hashing.sha256 (1 ∷ 2 ∷ []) ≡ hashing.sha256 elf_bytes → ⊥
no_collision e = false-ne-true (sym hashes_differ ∙ (text_eq_iff _ _).1 e)

told_apart :
    (a b : List ℕ)
    → HashedIn hashing (elf_file ∷ []) a
    → HashedIn hashing (elf_file ∷ []) b
    → hashing.sha256 a ≡ hashing.sha256 b
    → a ≡ b
told_apart a b h k e = apart (known a h) (known b k) e
  where
    apart :
        (a ≡ 1 ∷ 2 ∷ []) ⊎ (a ≡ elf_bytes)
        → (b ≡ 1 ∷ 2 ∷ []) ⊎ (b ≡ elf_bytes)
        → hashing.sha256 a ≡ hashing.sha256 b
        → a ≡ b
    apart (inl p) (inl q) e = cc
    apart (inr p) (inr q) e = cc
    apart (inl p) (inr q) e =
        let same : hashing.sha256 (1 ∷ 2 ∷ []) ≡ hashing.sha256 elf_bytes = rw (p, q) at e in
        absurd (no_collision same)
    apart (inr p) (inl q) e =
        let same : hashing.sha256 elf_bytes ≡ hashing.sha256 (1 ∷ 2 ∷ []) = rw (p, q) at e in
        absurd (no_collision (sym same))

artifact_digest-same_example :
    map (view hashing) (sort_files hashing (elf_file ∷ []))
    ≡ map (view hashing) (sort_files hashing (elf_file ∷ []))
unfolding artifact_digest digest_files sort_files insert_file hash_files hash_file hash_path
    hash_content files_under
artifact_digest-same_example =
    artifact_digest-same hashing built rebuilt (word 32 (value_of 0 elf_bytes + 7)) (elf_file ∷ [])
      (elf_file ∷ []) refl refl refl refl (λ a. length-word 32 (value_of 0 a + 7)) (λ a b e. e)
      told_apart

abbrev a_snapshot : Snapshot
a_snapshot = record {
  path = codes "/tmp/build";
  tree = built;
  sketch_uf2 = [];
  every_uf2 = [];
  sketch_elf = codes "/tmp/build/blink.ino.elf" ∷ [];
  every_elf = codes "/tmp/build/blink.ino.elf" ∷ [];
}

-- A world in which an upload goes through.
abbrev a_world : World
a_world = record {
  python = python;
  paths = record {
    resolve = λ p. p;
    parts = λ p. split b'/' p;
    is_dir = λ p. starts_with p (codes "/home");
    is_symlink = λ p. false;
  };
  hashing = hashing;
  snapshot = some a_snapshot;
  asks = some (Except.ok tt);
  require = Except.ok tt;
  copy = record { size = none; error = none; deadline = 0; looks = []; last = false };
  run = ended (exit 0);
  keep = some (keeps true);
  closing = noted;
}

abbrev made : Upload
made = record {
  sketch_dir = codes "/home/me/blink";
  fqbn = codes "arduino:avr:uno";
  serial = [];
  artifact_path = codes "/home/me/b";
  artifact_digest = word 32 (value_of 0 elf_bytes + 7);
}

abbrev a_request : Request
a_request = record {
  sketch_dir = codes "/home/me/blink";
  port = codes "/dev/ttyUSB0";
  fqbn = codes "arduino:avr:uno";
  token = mint_token python made 5400;
  serial = [];
  artifact_path = codes "/home/me/b";
  artifact_digest = word 32 (value_of 0 elf_bytes + 7);
  roots = some (codes "/home/me" ∷ []);
  now = 301000;
}

upload_sketch-Orderly_example : Orderly a_world a_request (upload_sketch a_world a_request [])
upload_sketch-Orderly_example = upload_sketch-Orderly a_world a_request

-- The events of that upload, with its good end.
uploads : upload_sketch a_world a_request [] ≡ (
  Except.ok (success kept false),
  asked
      ∷ log_started
      ∷ ran (upload_arguments a_request a_snapshot)
      ∷ offered (codes "/tmp/build/blink.ino.elf")
      ∷ log_finished (returned (exit 0))
      ∷ [],
)
unfolding upload_sketch check_request resolve_sketch_dir under_a_root is_relative check_fqbn
    fqbn_pattern fqbn_parts some_of without_line_feed resolve_artifact_dir of_verified verify_token
    check_parts check_signature compare_digest split_last mint_token artifact_snapshot
    artifact_digest digest_files sort_files insert_file hash_files hash_file hash_path hash_content
    files_under uf2_of before_write prepare_upload_log guarded_write note_failure write_and_keep
    write_board arduino_cli keep_flashed_elf keep_elf flashed_elf single_image keep_answer close_log
    reply split cons_head starts_with text_eq
uploads = refl
