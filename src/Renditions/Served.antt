-- ===== src/Renditions/Served.antt =====
-- `rendition` of src/server/hrb/BlobFile.cc and `response` of src/server/hrb/BlobDatabase.cc: which file
-- of a blob's directory is sent, and which is made. The directory is there. What OpenCV makes of the master,
-- what is in a file after it was written, and what libexif and libmagic tell of the master are
-- arguments; the header fields of a response are left out.
use hearty_rabbit.Prelude.{
  Bool, true, not, ◌&&◌, ◌||◌, List, [], ◌∷◌, Option, none, some, if◌then◌else◌, Bytes, codes,
  is_empty, bytes_eq, is_prefix, leb, is_some,
}
use hearty_rabbit.Renditions.{RenditionSetting, JpegRenditionSetting, valid, find}

-- A directory, as the names of its files and what is in them.
pub record File : Type 0 where
  pub name : Bytes
  pub content : Bytes

unfoldable pub content_of : List File → Bytes → Option Bytes
content_of [] name = none
content_of (f ∷ fs) name =
    let others = content_of fs name in if bytes_eq f.name name then some f.content else others

unfoldable pub write : Bytes → Bytes → List File → List File
write name bytes fs = record { name = name; content = bytes } ∷ fs

abbrev pub master_rendition : Bytes
master_rendition = codes "master"

-- `MMap::open`: no error is left if it succeeds, and an empty file cannot be mapped.
unfoldable pub mapped : List File → Bytes → Option Bytes
mapped fs name = elim (content_of fs name) [
  | none ↦ none
  | some bytes ↦ if is_empty bytes then none else some bytes
]

unfoldable pub is_image : Bytes → Bool
is_image mime = not (is_empty mime) && is_prefix (codes "image") mime

-- No response is sent if an exception leaves the function.
pub data Response : Type 0 where
  bad_request not_found no_response : Response
  ok : Bytes → Response

-- What OpenCV makes of the master: it may be no image, and an exception is not caught.
pub data Rendered : Type 0 where
  no_image exception : Rendered
  rendered : Bytes → Rendered

-- What becomes of `rendition`: an exception, or a file that is mapped, or not.
pub data Result : Type 0 where
  thrown : Result
  returned : Option Bytes → Result

-- `std::isalpha` or `std::isdigit`, in the locale C.
unfoldable pub is_alnum : Bytes → Bool
is_alnum [] = true
is_alnum (c ∷ s) =
    let rest = is_alnum s in
    ((leb b'a' c && leb c b'z') || (leb b'A' c && leb c b'Z') || (leb b'0' c && leb c b'9')) && rest

-- What is sent of a directory: the rendition if there is one, or else the master.
unfoldable pub opened : Bytes → List File → Option Bytes
opened name fs = if is_some (content_of fs name) then mapped fs name else mapped fs master_rendition

unfoldable pub respond : Result → Response
respond thrown = no_response
respond (returned none) = not_found
respond (returned (some bytes)) = ok bytes

abbrev pub chosen : RenditionSetting → Bytes → Bytes
chosen cfg name = if valid cfg name then name else cfg.default_

abbrev pub meta_file : Bytes
meta_file = codes "meta.json"

-- `render` is given the type, the setting and the master, `written` what is to be written, and `deduce`
-- the master, if it can be mapped, of which it tells the JSON and the type, or throws.
module _ (render : Bytes → JpegRenditionSetting → Bytes → Rendered) (written : Bytes → Option Bytes)
    (deduce : Option Bytes → Option (Bytes × Bytes)) (cfg : RenditionSetting) where
  unfoldable pub save_blob : Bytes → Bytes → List File → List File
  save_blob name bytes fs = elim (written bytes) [ none ↦ fs | some kept ↦ write name kept fs ]

  -- `generate_image_rendition`: `none` is an exception; a master that is no image is left at that.
  unfoldable pub save_rendition : Bytes → List File → Rendered → Option (List File)
  unfolding save_blob
  save_rendition name fs no_image = some fs
  save_rendition name fs exception = none
  save_rendition name fs (rendered bytes) = some (save_blob name bytes fs)

  unfoldable pub generate_image_rendition :
      Bytes → JpegRenditionSetting → Bytes → List File → Option (List File)
  unfolding save_rendition
  generate_image_rendition mime setting name fs = elim (content_of fs master_rendition) [
    | none ↦ some fs
    | some image ↦ save_rendition name fs (render mime setting image)
  ]

  -- `update_meta` of a blob that was just opened, with its type. What was in the file is read, and
  -- deduced anew.
  unfoldable pub update_meta : List File → Option (List File × Bytes)
  unfolding mapped write
  update_meta fs = elim (deduce (mapped fs master_rendition)) [
    | none ↦ none
    | some described ↦ some (write meta_file described.0 fs, described.1)
  ]

  -- The rendition is not there: it is made if the blob is an image. `none` where `find` does not
  -- return.
  unfoldable pub make_rendition :
      Bytes → List File → Option (List File × Bytes) → Option (List File × Result)
  unfolding generate_image_rendition opened
  make_rendition name before none = some (before, thrown)
  make_rendition name before (some (fs, mime)) =
      if is_image mime
      then elim (find 2 cfg name) [
        | none ↦ none
        | some setting ↦ elim (generate_image_rendition mime setting name fs) [
          | none ↦ some (fs, thrown)
          | some made ↦ some (made, returned (opened name made))
        ]
      ]
      else some (fs, returned (opened name fs))

  unfoldable pub rendition : Bytes → List File → Option (List File × Result)
  unfolding make_rendition update_meta opened
  rendition name fs =
      if bytes_eq name master_rendition
      then some (fs, returned (mapped fs master_rendition))
      else if is_some (content_of fs (chosen cfg name))
      then some (fs, returned (opened (chosen cfg name) fs))
      else make_rendition (chosen cfg name) fs (update_meta fs)

  unfoldable pub response : Bytes → List File → Option (List File × Response)
  unfolding rendition respond
  response name fs =
      if is_alnum name
      then elim (rendition name fs) [
        | none ↦ none
        | some result ↦ some (result.0, respond result.1)
      ]
      else some (fs, bad_request)
