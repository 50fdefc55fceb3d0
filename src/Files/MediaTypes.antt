-- ===== src/Files/MediaTypes.antt =====
-- The media types of avatars (auth/user-avatar-handler.ts, files/file-read-handler.ts). A buffer is the
-- list of its bytes.
use nest_js_tutorial.Base.{
  ℕ, zero, suc, ◌%◌, Bool, ◌&&◌, Option, none, some, Text, codes, ◌==◌, eqb, leb, List, [], ◌∷◌,
  map, take, drop, length, if◌then◌else◌,
}

-- AvatarMediaType
pub data AvatarMediaType : Type 0 where
  jpeg png webp : AvatarMediaType

abbrev pub media_type : AvatarMediaType → Text
media_type AvatarMediaType.jpeg = codes "image/jpeg"
media_type AvatarMediaType.png = codes "image/png"
media_type AvatarMediaType.webp = codes "image/webp"

-- MEDIA_TYPE_EXTENSION of the avatar handler.
abbrev pub extension : AvatarMediaType → Text
extension AvatarMediaType.jpeg = codes "jpg"
extension AvatarMediaType.png = codes "png"
extension AvatarMediaType.webp = codes "webp"

-- MAX_AVATAR_BYTES and MAX_PRIVATE_FILE_BYTES
abbrev pub max_avatar_bytes : ℕ
max_avatar_bytes = 2097152

abbrev pub png_signature : List ℕ
png_signature = 137 ∷ 80 ∷ 78 ∷ 71 ∷ 13 ∷ 10 ∷ 26 ∷ 10 ∷ []

-- `buffer[i]`, where there is such a byte.
abbrev pub byte_at : ℕ → List ℕ → ℕ
byte_at i [] = 0
byte_at zero (c ∷ s) = c
byte_at (suc i) (c ∷ s) = byte_at i s

-- `buffer.toString('ascii', …)`, which takes the highest bit away.
abbrev pub ascii_text : List ℕ → Text
ascii_text bytes = map (λ c. c % 128) bytes

abbrev pub is_jpeg : List ℕ → Bool
is_jpeg buffer =
    leb 3 (length buffer)
    && (eqb (byte_at 0 buffer) 255 && (eqb (byte_at 1 buffer) 216 && eqb (byte_at 2 buffer) 255))

abbrev pub is_png : List ℕ → Bool
is_png buffer = take 8 buffer == png_signature

abbrev pub is_webp : List ℕ → Bool
is_webp buffer =
    leb 12 (length buffer)
    && (ascii_text (take 4 buffer) == codes "RIFF"
        && ascii_text (take 4 (drop 8 buffer)) == codes "WEBP")

-- getAvatarMediaType
unfoldable pub get_avatar_media_type : List ℕ → Option AvatarMediaType
get_avatar_media_type buffer =
    if is_jpeg buffer
    then some AvatarMediaType.jpeg
    else if is_png buffer
    then some AvatarMediaType.png
    else if is_webp buffer
    then some AvatarMediaType.webp
    else none

-- MEDIA_TYPE_EXTENSION of the file handler, over any text; its keys are also IMAGE_MEDIA_TYPES.
unfoldable pub extension_of : Text → Option Text
extension_of type =
    if type == codes "image/jpeg"
    then some (codes "jpg")
    else if type == codes "image/png"
    then some (codes "png")
    else if type == codes "image/webp"
    then some (codes "webp")
    else none
