-- ===== src/Flash/Artifact/Hashed.antt =====
-- What the hash of one file tells of it.
use mathlib.Core.List.{append_assoc}
use omarchy_hardware.Common.{
  ℕ, ◌^◌, ◌<◌, ◌≡◌, refl, sym, ap, ◌∙◌, arith, ltb, Option, none, some, List, [], ◌∷◌, ◌++◌, length,
  length-append, In, Bool-cases, inl, inr,
}
use omarchy_hardware.Common.Words.{word, value_of, value_of-word, length-word}
use omarchy_hardware.Flash.Steps.{Except, ok, raised, ◌>>>◌}
use omarchy_hardware.Flash.Artifact.{File, Hashing, hash_content, hash_path, hash_file, hash_files}

pub >>>-ok :
    {A B : Type 0} (m : Except A) (f : A → Except B) (b : B)
    → (m >>> f) ≡ ok b
    → (a : A) × (m ≡ ok a) × (f a ≡ ok b)
>>>-ok (ok a) f b h = (a, refl, h)
>>>-ok (raised e) f b h = cc

-- A file as the digest sees it: the bytes of its path, and its content.
abbrev pub view : Hashing → File → Option (List ℕ) × Option (List ℕ)
view h f = (h.posix f.relative, f.content)

-- Two contents with one hash are the same.
-- The texts that are hashed for a digest of these files: their contents, and all of it together.
pub data HashedIn (h : Hashing) (files : List File) : List ℕ → Type 0 where
  content_of :
      {content : List ℕ} (f : File)
      → In f files
      → f.content ≡ some content
      → HashedIn h files content
  whole : {bytes : List ℕ} → hash_files h files ≡ ok bytes → HashedIn h files bytes

pub data Hashed (h : Hashing) (f : File) (bytes : List ℕ) : Type 0 where
  hashed :
      {path content : List ℕ}
      → h.posix f.relative ≡ some path
      → f.content ≡ some content
      → length path < 2 ^ 64
      → bytes ≡ word 8 (length path) ++ (path ++ h.sha256 content)
      → Hashed h f bytes

append-split :
    (xs ys rest other : List ℕ)
    → length xs ≡ length ys
    → xs ++ rest ≡ ys ++ other
    → (xs ≡ ys) × (rest ≡ other)
append-split [] [] rest other n e = (refl, e)
append-split [] (y ∷ ys) rest other n e = absurd (omega arith)
append-split (x ∷ xs) [] rest other n e = absurd (omega arith)
append-split (x ∷ xs) (y ∷ ys) rest other n e =
    let (p, q) = append-split xs ys rest other (omega arith) (cc) in (cc, q)

pub hash_file-Hashed :
    (h : Hashing) (f : File) (bytes : List ℕ) → hash_file h f ≡ ok bytes → Hashed h f bytes
unfolding hash_file hash_path hash_content
hash_file-Hashed h f bytes e = go (h.posix f.relative) f.content refl refl e
  where
    go :
        (path content : Option (List ℕ))
        → h.posix f.relative ≡ path
        → f.content ≡ content
        → hash_path h path content ≡ ok bytes
        → Hashed h f bytes
    go none content p c e = cc
    go (some path) none p c e = elim (Bool-cases (ltb (length path) (2 ^ 64))) [
      | inl small ↦ absurd (ground (arith, small))
      | inr large ↦ absurd (ground (arith, large))
    ]
    go (some path) (some content) p c e = elim (Bool-cases (ltb (length path) (2 ^ 64))) [
      | inl small ↦ hashed p c (ground (arith, small)) (ground (arith, small))
      | inr large ↦ absurd (ground (arith, large))
    ]

-- The entry of a file is cut off what follows it, and tells its path and the hash of its content.
pub entry-split :
    (p q c d rest other : List ℕ)
    → length p < 2 ^ 64
    → length q < 2 ^ 64
    → length c ≡ length d
    → (word 8 (length p) ++ (p ++ c)) ++ rest ≡ (word 8 (length q) ++ (q ++ d)) ++ other
    → (p ≡ q) × (c ≡ d) × (rest ≡ other)
entry-split p q c d rest other small small' n e =
    let (heads, tails) =
      append-split (word 8 (length p)) (word 8 (length q)) (p ++ (c ++ rest)) (q ++ (d ++ other))
        (length-word 8 (length p) ∙ sym (length-word 8 (length q)))
        (sym (flat (word 8 (length p)) p c rest) ∙ e ∙ flat (word 8 (length q)) q d other) in
    let same : length p ≡ length q =
      sym (value_of-word 8 (length p) (omega arith))
      ∙ ap (value_of 0) heads
      ∙ value_of-word 8 (length q) (omega arith) in
    let (paths, more) = append-split p q (c ++ rest) (d ++ other) same tails in
    let (hashes, last) = append-split c d rest other n more in (paths, hashes, last)
  where
    flat : (w p c r : List ℕ) → (w ++ (p ++ c)) ++ r ≡ w ++ (p ++ (c ++ r))
    flat w p c r = append_assoc w (p ++ c) r ∙ ap (λ z. w ++ z) (append_assoc p c r)

-- More bytes than none come of a file.
pub entry-ne-nil : (p c rest : List ℕ) → (word 8 (length p) ++ (p ++ c)) ++ rest ≡ [] → ⊥
entry-ne-nil p c rest e =
    let n = length-append (word 8 (length p) ++ (p ++ c)) rest in
    let k = length-append (word 8 (length p)) (p ++ c) in
    omega (arith, n, k, length-word 8 (length p), ap length e)
