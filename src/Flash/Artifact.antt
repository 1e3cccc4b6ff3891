-- ===== src/Flash/Artifact.antt =====
-- `_artifact_digest` and `_resolve_artifact_dir` of mcp/omarchy_hardware/flash.py.
pub mod Hashed
pub mod Injective
use omarchy_hardware.Common.{
  ℕ, ◌^◌, ◌==◌, ltb, any, Bool, true, false, not, ◌||◌, Option, none, some, List, [], ◌∷◌, ◌++◌,
  length, if◌then◌else◌,
}
use omarchy_hardware.Common.Text.{Text}
use omarchy_hardware.Common.Words.{word}
use omarchy_hardware.Errors.{artifact_invalid}
use omarchy_hardware.Flash.Steps.{Except, ok, raised, tool, os_error, other, ◌>>>◌}
use omarchy_hardware.Flash.Sketch.{Paths}

abbrev pub is_nil : Text → Bool
is_nil [] = true
is_nil (c ∷ s) = false

-- What stands under a name in a directory: a symbolic link, a regular file with its bytes or one
-- that cannot be opened or read, what is neither, and a directory. `os.walk` passes by a directory
-- that cannot be listed, as if it were empty.
mutual
  pub data Node : Type 0 where
    symlink special : Node
    file : List ℕ → Node
    unreadable : Node
    directory : Tree → Node

  pub data Tree : Type 0 where
    nothing : Tree
    holds : (name : Text) → Node → Tree → Tree

-- A regular file by its path under the root, with its bytes if it can be read.
pub record File : Type 0 where
  pub relative : List Text
  pub content : Option (List ℕ)

-- SHA-256, `as_posix().encode()`, which is `none` on a name with a lone surrogate, the order of paths,
-- and `hexdigest`.
pub record Hashing : Type 0 where
  pub sha256 : List ℕ → List ℕ
  pub posix : List Text → Option (List ℕ)
  pub path_lt : List Text → List Text → Bool
  pub hex : List ℕ → Text

-- The walk: a symbolic link anywhere is refused.
unfoldable mutual
  pub files_at : Node → List Text → Except (List File)
  files_at symlink at = raised (tool artifact_invalid)
  files_at special at = ok []
  files_at (file bytes) at = ok (record { relative = at; content = some bytes } ∷ [])
  files_at unreadable at = ok (record { relative = at; content = none } ∷ [])
  files_at (directory tree) at = files_under tree at

  pub files_under : Tree → List Text → Except (List File)
  files_under nothing at = ok []
  files_under (holds name node tree) at = files_at node (at ++ name ∷ []) >>> λ here.
      files_under tree at >>> λ there. ok (here ++ there)

-- `files.sort()`
unfoldable pub insert_file : Hashing → File → List File → List File
insert_file h f [] = f ∷ []
insert_file h f (g ∷ gs) =
    let later = insert_file h f gs in
    if h.path_lt g.relative f.relative then g ∷ later else f ∷ (g ∷ gs)

unfoldable pub sort_files : Hashing → List File → List File
unfolding insert_file
sort_files h [] = []
sort_files h (f ∷ fs) = insert_file h f (sort_files h fs)

-- What one file adds to the digest: the length of its path in eight bytes, the path, and the hash of
-- its content. A path is encoded before the file is opened.
unfoldable pub hash_content : Hashing → List ℕ → Option (List ℕ) → Except (List ℕ)
hash_content h path none = raised (tool artifact_invalid)
hash_content h path (some content) = ok (word 8 (length path) ++ (path ++ h.sha256 content))

unfoldable pub hash_path : Hashing → Option (List ℕ) → Option (List ℕ) → Except (List ℕ)
unfolding hash_content
hash_path h none content = raised other
hash_path h (some path) content =
    if ltb (length path) (2 ^ 64) then hash_content h path content else raised other

unfoldable pub hash_file : Hashing → File → Except (List ℕ)
unfolding hash_path
hash_file h f = hash_path h (h.posix f.relative) f.content

unfoldable pub hash_files : Hashing → List File → Except (List ℕ)
unfolding hash_file
hash_files h [] = ok []
hash_files h (f ∷ fs) = hash_file h f >>> λ here. hash_files h fs >>> λ there. ok (here ++ there)

unfoldable pub digest_files : Hashing → List File → Except Text
unfolding hash_files sort_files
digest_files h [] = raised (tool artifact_invalid)
digest_files h (f ∷ fs) =
    hash_files h (sort_files h (f ∷ fs)) >>> λ bytes. ok (h.hex (h.sha256 bytes))

-- `_resolve_artifact_dir`
unfoldable pub resolve_artifact_dir : Paths → Text → Except Text
resolve_artifact_dir paths path =
    if is_nil path || any (λ c. c == 0) path
    then raised (tool artifact_invalid)
    else if paths.is_symlink path
    then raised (tool artifact_invalid)
    else if paths.is_dir (paths.resolve path)
    then ok (paths.resolve path)
    else raised (tool artifact_invalid)

-- `_artifact_digest`, given what stands at the resolved path.
unfoldable pub artifact_digest : Hashing → Tree → Except Text
unfolding digest_files files_under
artifact_digest h tree = files_under tree [] >>> digest_files h
