-- ===== src/Files/Storage.antt =====
-- PrivateAttachmentStorage.resolvePath (attachments/private-attachment-storage.ts), with `basename` and
-- `resolve` of node:path on POSIX.
pub mod Laws
use nest_js_tutorial.Base.{
  ℕ, Bool, true, false, not, ◌&&◌, ◌||◌, Option, none, some, Text, codes, ◌==◌, eqb, List, [], ◌∷◌,
  ◌++◌, if◌then◌else◌,
}

-- The code of `/`, which is also `sep`.
abbrev pub slash : ℕ
slash = 47

-- The pieces of a path between slashes: the first one and the others.
unfoldable pub pieces : Text → Text × List Text
pieces [] = ([], [])
pieces (c ∷ s) =
    let (piece, more) = pieces s in if eqb c slash then ([], piece ∷ more) else (c ∷ piece, more)

abbrev pub segments : Text → List Text
segments s = (pieces s).0 ∷ (pieces s).1

-- The last piece that is not empty; trailing slashes do not count.
unfoldable pub last_segment : Text → List Text → Text
last_segment found [] = found
last_segment found (s ∷ ss) = last_segment (if s == [] then found else s) ss

-- `basename(path)`
unfoldable pub basename : Text → Text
unfolding pieces last_segment
basename path = last_segment [] (segments path)

-- Normalization of the pieces of an absolute path, over those so far, the last one first.
abbrev pub up : List Text → List Text
up [] = []
up (s ∷ ss) = ss

unfoldable pub normalize : List Text → List Text → List Text
normalize path [] = path
normalize path (s ∷ ss) =
    normalize
      (if s == [] || s == codes "." then path else if s == codes ".." then up path else s ∷ path) ss

-- An absolute path is kept as its pieces, the last one first.
abbrev pub starts_with_slash : Text → Bool
starts_with_slash [] = false
starts_with_slash (c ∷ s) = eqb c slash

-- `resolve(root, path)`
unfoldable pub resolve : List Text → Text → List Text
unfolding normalize pieces
resolve root path = normalize (if starts_with_slash path then [] else root) (segments path)

-- The text of an absolute path; that of the root of the file system is `/`.
unfoldable pub path_text : List Text → Text
path_text [] = []
path_text (s ∷ ss) = path_text ss ++ slash ∷ s

unfoldable pub absolute : List Text → Text
unfolding path_text
absolute [] = slash ∷ []
absolute (s ∷ ss) = path_text (s ∷ ss)

-- `text.startsWith(prefix)`
unfoldable pub starts_with : Text → Text → Bool
starts_with [] text = true
starts_with (c ∷ s) [] = false
starts_with (c ∷ s) (d ∷ t) = eqb c d && starts_with s t

-- `if (test) throw new InvalidAttachmentStorageKeyError();`
abbrev pub unless : Bool → Text → Option Text
unless true path = none
unless false path = some path

-- resolvePath; `none` is the error.
unfoldable pub resolve_path : List Text → Text → Option Text
unfolding basename resolve absolute starts_with
resolve_path root storage_key =
    let path = absolute (resolve root storage_key) in
    if storage_key == [] || not (basename storage_key == storage_key)
    then none
    else unless (not (starts_with (absolute root ++ slash ∷ []) path)) path
