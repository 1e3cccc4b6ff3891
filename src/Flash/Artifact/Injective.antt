-- ===== src/Flash/Artifact/Injective.antt =====
-- Two builds with one digest have the same files.
use omarchy_hardware.Common.{
  ℕ, ◌^◌, ◌<◌, ◌≡◌, refl, sym, ap, ◌∙◌, some, List, [], ◌∷◌, ◌++◌, map, length, In, inl, inr,
}
use omarchy_hardware.Common.Text.{Text}
use omarchy_hardware.Common.Words.{word}
use omarchy_hardware.Flash.Steps.{Except, ok}
use omarchy_hardware.Flash.Artifact.{
  Tree, File, Hashing, files_under, sort_files, hash_file, hash_files, digest_files,
  artifact_digest,
}
use omarchy_hardware.Flash.Artifact.Hashed.{
  >>>-ok, view, HashedIn, content_of, whole, Hashed, hashed, hash_file-Hashed, entry-split,
  entry-ne-nil,
}

data Parts (h : Hashing) (f : File) (fs : List File) (bytes : List ℕ) : Type 0 where
  parts :
      {path content rest : List ℕ}
      → h.posix f.relative ≡ some path
      → f.content ≡ some content
      → length path < 2 ^ 64
      → hash_files h fs ≡ ok rest
      → (word 8 (length path) ++ (path ++ h.sha256 content)) ++ rest ≡ bytes
      → Parts h f fs bytes

hash_files-Parts :
    (h : Hashing) (f : File) (fs : List File) (bytes : List ℕ)
    → hash_files h (f ∷ fs) ≡ ok bytes
    → Parts h f fs bytes
unfolding hash_files
hash_files-Parts h f fs bytes e =
    let (here, hf, k) = >>>-ok (hash_file h f) _ bytes e in
    let (rest, hr, last) = >>>-ok (hash_files h fs) _ bytes k in
    go here rest (hash_file-Hashed h f here hf) hr last
  where
    go :
        (here rest : List ℕ)
        → Hashed h f here
        → hash_files h fs ≡ ok rest
        → ◌≡◌ {A = Except (List ℕ)} (ok (here ++ rest)) (ok bytes)
        → Parts h f fs bytes
    go here rest (hashed p c small split) hr last =
        let joined : here ++ rest ≡ bytes = cc in parts p c small hr (rw split at joined)

module _ (h : Hashing) (size : (a : List ℕ) → length (h.sha256 a) ≡ 32) where
  nothing_left :
      (f : File) (fs : List File) (bytes : List ℕ)
      → hash_files h [] ≡ ok bytes
      → Parts h f fs bytes
      → ⊥
  unfolding hash_files
  nothing_left f fs bytes e (parts {path = p} {content = a} {rest = r} hp ha small hr e') =
      let empty : bytes ≡ [] = cc in entry-ne-nil p (h.sha256 a) r (e' ∙ empty)

  one_more :
      (f g : File) (fs gs : List File) (bytes : List ℕ)
      → ((f' g' : File) (a b : List ℕ)
          → In f' (f ∷ fs)
          → In g' (g ∷ gs)
          → f'.content ≡ some a
          → g'.content ≡ some b
          → h.sha256 a ≡ h.sha256 b
          → a ≡ b)
      → Parts h f fs bytes
      → Parts h g gs bytes
      → ((rest : List ℕ)
          → hash_files h fs ≡ ok rest
          → hash_files h gs ≡ ok rest
          → map (view h) fs ≡ map (view h) gs)
      → map (view h) (f ∷ fs) ≡ map (view h) (g ∷ gs)
  one_more f g fs gs bytes apart (parts {path = p} {content = a} {rest = r} hp ha small hr e)
        (parts {path = q} {content = b} {rest = s} hq hb small' hs e') later =
      let (paths, hashes, rests) =
        entry-split p q (h.sha256 a) (h.sha256 b) r s small small' (size a ∙ sym (size b))
          (e ∙ sym e') in
      let contents = apart f g a b (inl refl) (inl refl) ha hb hashes in
      let names : h.posix f.relative ≡ h.posix g.relative = hp ∙ ap some paths ∙ sym hq in
      let same : f.content ≡ g.content = ha ∙ ap some contents ∙ sym hb in
      let tails = later s (rw rests at hr) hs in
      rw (names, same) (ap (λ z. (h.posix g.relative, g.content) ∷ z) tails)

  views-same :
      (fs gs : List File) (bytes : List ℕ)
      → ((f g : File) (a b : List ℕ)
          → In f fs
          → In g gs
          → f.content ≡ some a
          → g.content ≡ some b
          → h.sha256 a ≡ h.sha256 b
          → a ≡ b)
      → hash_files h fs ≡ ok bytes
      → hash_files h gs ≡ ok bytes
      → map (view h) fs ≡ map (view h) gs
  views-same [] [] bytes apart e e' = refl
  views-same [] (g ∷ gs) bytes apart e e' =
      absurd (nothing_left g gs bytes e (hash_files-Parts h g gs bytes e'))
  views-same (f ∷ fs) [] bytes apart e e' =
      absurd (nothing_left f fs bytes e' (hash_files-Parts h f fs bytes e))
  views-same (f ∷ fs) (g ∷ gs) bytes apart e e' =
      one_more f g fs gs bytes apart (hash_files-Parts h f fs bytes e)
        (hash_files-Parts h g gs bytes e')
        λ rest. views-same fs gs rest (λ f' g' a b i j. apart f' g' a b (inr i) (inr j))

-- What a directory's digest is the digest of.
digest-parts :
    (h : Hashing) (tree : Tree) (digest : Text)
    → artifact_digest h tree ≡ ok digest
    → (files : List File) × (bytes : List ℕ) × (files_under tree [] ≡ ok files)
      × (hash_files h (sort_files h files) ≡ ok bytes)
      × (h.hex (h.sha256 bytes) ≡ digest)
unfolding artifact_digest digest_files
digest-parts h tree digest e =
    let (files, walked, d) = >>>-ok (files_under tree []) (digest_files h) digest e in
    go files walked d
  where
    go :
        (files : List File)
        → files_under tree [] ≡ ok files
        → digest_files h files ≡ ok digest
        → (files : List File) × (bytes : List ℕ) × (files_under tree [] ≡ ok files)
          × (hash_files h (sort_files h files) ≡ ok bytes)
          × (h.hex (h.sha256 bytes) ≡ digest)
    go [] w d = cc
    go (f ∷ fs) w d =
        let (bytes, k, last) = >>>-ok (hash_files h (sort_files h (f ∷ fs))) _ digest d in
        (f ∷ fs, bytes, w, k, cc)

-- Two directories with the same artifact digest have, in the order of the hash, the same files
-- by the bytes of their paths and with the same contents, if hashes have 32 bytes, hexdigest
-- tells hashes apart, and SHA-256 has no collision among the texts that are hashed for the
-- two.
pub artifact_digest-same :
    (h : Hashing) (tree other : Tree) (digest : Text) (files files' : List File)
    → files_under tree [] ≡ ok files
    → files_under other [] ≡ ok files'
    → artifact_digest h tree ≡ ok digest
    → artifact_digest h other ≡ ok digest
    → ((a : List ℕ) → length (h.sha256 a) ≡ 32)
    → ((a b : List ℕ) → h.hex a ≡ h.hex b → a ≡ b)
    → ((a b : List ℕ)
        → HashedIn h (sort_files h files) a
        → HashedIn h (sort_files h files') b
        → h.sha256 a ≡ h.sha256 b
        → a ≡ b)
    → map (view h) (sort_files h files) ≡ map (view h) (sort_files h files')
artifact_digest-same h tree other digest files files' w w' e e' size hex apart =
    let (fs, bytes, walked, k, d) = digest-parts h tree digest e in
    let (gs, bytes', walked', k', d') = digest-parts h other digest e' in
    let here : fs ≡ files = cc in
    let there : gs ≡ files' = cc in
    let ours = rw here at k in
    let theirs = rw there at k' in
    let one = apart bytes bytes' (whole ours) (whole theirs) (hex _ _ (d ∙ sym d')) in
    views-same h size (sort_files h files) (sort_files h files') bytes'
      (λ f g a b i j c c'. apart a b (content_of f i c) (content_of g j c')) (rw one at ours) theirs
