-- ===== src/Renditions/Answered.antt =====
-- What `response` of src/server/hrb/BlobDatabase.cc answers, and which files it changes.
use mathlib.Core.Option.{some-injective}
use hearty_rabbit.Prelude.{
  ◌≡◌, ◌∙◌, [], ap, sym, ◌⊎◌, inl, inr, refl, true, false, List, Option, none, some, if◌then◌else◌,
  Bytes, is_empty, bytes_eq, bytes_eq_sound, Bool-cases, Option-cases, is_some,
}
use hearty_rabbit.Redis.Order.{is_empty_sound}
use hearty_rabbit.Renditions.{RenditionSetting, JpegRenditionSetting, look_up, valid, find_returns}
use hearty_rabbit.Renditions.Served.{
  File, content_of, write, master_rendition, mapped, is_image, Response, bad_request, not_found, ok,
  is_alnum, opened, respond, save_blob, generate_image_rendition, meta_file, update_meta, Rendered,
  no_image, exception, rendered, Result, thrown, returned, no_response, save_rendition,
  make_rendition, chosen, rendition, response,
}

-- The files that may be sent, and an answer that comes from one of them.
abbrev pub IsServed : RenditionSetting → Bytes → Type 0
IsServed cfg name = (name ≡ master_rendition) ⊎ (is_some (look_up cfg.renditions name) ≡ true)

module _ (render : Bytes → JpegRenditionSetting → Bytes → Rendered) (written : Bytes → Option Bytes)
    (deduce : Option Bytes → Option (Bytes × Bytes)) (cfg : RenditionSetting) where
  -- An exception comes of the master: of what is deduced of it, or of rendering it.
  abbrev pub IsThrown : List File → Type 0
  IsThrown fs =
      (deduce (mapped fs master_rendition) ≡ none)
      ⊎ ((mime : Bytes) × (setting : JpegRenditionSetting) × (image : Bytes) × (content_of fs
              master_rendition
            ≡ some image)
          × (render mime setting image ≡ exception))

  -- A file that would be sent is not there, or empty.
  abbrev pub IsMissing : List File → Type 0
  IsMissing fs =
      (content_of fs master_rendition ≡ none)
      ⊎ ((name : Bytes) × (content_of fs name ≡ some []) × IsServed cfg name)

  -- The answer to a name that is well formed is right for a directory as it was before and after.
  abbrev pub IsAnswer : List File → List File → Response → Type 0
  IsAnswer before fs bad_request = true ≡ false
  IsAnswer before fs not_found = IsMissing fs
  IsAnswer before fs no_response = IsThrown before
  IsAnswer before fs (ok bytes) =
      (name : Bytes) × (content_of fs name ≡ some bytes) × IsServed cfg name

  written-content_of :
      (name other : Bytes) (fs : List File) (o : Option Bytes)
      → bytes_eq name other ≡ false
      → content_of (elim o [ none ↦ fs | some kept ↦ write name kept fs ]) other
        ≡ content_of fs other
  unfolding content_of write
  written-content_of name other fs none apart = refl
  written-content_of name other fs (some kept) apart = rw apart refl

  saved-content_of :
      (name other : Bytes) (fs made : List File) (r : Rendered)
      → bytes_eq name other ≡ false
      → save_rendition render written deduce cfg name fs r ≡ some made
      → content_of made other ≡ content_of fs other
  unfolding save_rendition save_blob
  saved-content_of name other fs made no_image apart e =
      ap (λ d. content_of d other) (sym (some-injective fs made e))
  saved-content_of name other fs made exception apart e = cc
  saved-content_of name other fs made (rendered bytes) apart e =
      ap (λ d. content_of d other) (sym (some-injective _ made e))
      ∙ written-content_of name other fs (written bytes) apart

  save_fails :
      (name : Bytes) (fs : List File) (r : Rendered)
      → save_rendition render written deduce cfg name fs r ≡ none
      → r ≡ exception
  unfolding save_rendition
  save_fails name fs no_image e = cc
  save_fails name fs exception e = refl
  save_fails name fs (rendered bytes) e = cc

  -- Either the rendition is made, or rendering the master throws.
  generated :
      (mime : Bytes) (setting : JpegRenditionSetting) (name other : Bytes) (fs : List File)
      → bytes_eq name other ≡ false
      → ((made : List File) × (generate_image_rendition render written deduce cfg mime setting name
              fs
            ≡ some made)
          × (content_of made other ≡ content_of fs other))
        ⊎ ((generate_image_rendition render written deduce cfg mime setting name fs ≡ none)
            × ((image : Bytes) × (content_of fs master_rendition ≡ some image)
                × (render mime setting image ≡ exception)))
  unfolding generate_image_rendition save_rendition save_blob
  generated mime setting name other fs apart =
      elim (Option-cases (content_of fs master_rendition)) [
        | inl missing ↦ inl (fs, rw (generate_image_rendition, missing) refl, refl)
        | inr (image, e) ↦
            elim (Option-cases
              (save_rendition render written deduce cfg name fs (render mime setting image))) [
                | inr (made, saved) ↦ inl (
                  made,
                  rw (generate_image_rendition, e) saved,
                  saved-content_of name other fs made (render mime setting image) apart saved,
                )
                | inl failed ↦ inr (
                  rw (generate_image_rendition, e) failed,
                  (image, e, save_fails name fs (render mime setting image) failed),
                )
              ]
      ]

  mapped-IsAnswer :
      (before : List File) (name : Bytes) (fs : List File) (o : Option Bytes)
      → content_of fs name ≡ o
      → IsServed cfg name
      → (name ≡ master_rendition) ⊎ (is_some o ≡ true)
      → IsAnswer before fs (
          respond (
            returned
              (elim o [ none ↦ none | some bytes ↦ if is_empty bytes then none else some bytes ])))
  unfolding respond
  mapped-IsAnswer before name fs none e served (inl master) =
      inl (ap (content_of fs) (sym master) ∙ e)
  mapped-IsAnswer before name fs none e served (inr there) = cc
  mapped-IsAnswer before name fs (some bytes) e served there = elim (Bool-cases (is_empty bytes)) [
    | inl y ↦ rw y (inr (name, e ∙ ap some (is_empty_sound bytes y), served))
    | inr n ↦ rw n (name, e, served)
  ]

  opened-IsAnswer :
      (before : List File) (name : Bytes) (fs : List File)
      → IsServed cfg name
      → IsAnswer before fs (respond (returned (opened name fs)))
  unfolding opened mapped
  opened-IsAnswer before name fs served = elim (Bool-cases (is_some (content_of fs name))) [
    | inl y ↦
        rw (opened, y) (mapped-IsAnswer before name fs (content_of fs name) refl served (inr y))
    | inr n ↦
        rw (opened, n)
          (mapped-IsAnswer before master_rendition fs (content_of fs master_rendition) refl
            (inl refl) (inl refl))
  ]

  apart :
      (name other : Bytes)
      → is_some (look_up cfg.renditions name) ≡ true
      → is_some (look_up cfg.renditions other) ≡ false
      → bytes_eq name other ≡ false
  apart name other y n = elim (Bool-cases (bytes_eq name other)) [
    | inr differ ↦ differ
    | inl same ↦ let e = bytes_eq_sound name other same in cc
  ]

  chosen-IsServed :
      (d : JpegRenditionSetting) (name : Bytes)
      → look_up cfg.renditions cfg.default_ ≡ some d
      → is_some (look_up cfg.renditions (chosen cfg name)) ≡ true
  unfolding valid
  chosen-IsServed d name h = elim (Option-cases (look_up cfg.renditions name)) [
    | inl e ↦ rw (valid, e, h) refl
    | inr (r, e) ↦ rw (valid, e) (rw e refl)
  ]

  module _ (other : Bytes) (unknown : is_some (look_up cfg.renditions other) ≡ false)
      (no_meta : bytes_eq meta_file other ≡ false) where
    -- What comes of a request: it is right, and leaves the other file as it was.
    abbrev IsRight : Option (List File × Result) → List File → Type 0
    IsRight result before =
        (fs : List File) × (r : Result) × (result ≡ some (fs, r))
        × IsAnswer before fs (respond r)
        × (content_of fs other ≡ content_of before other)

    make_image-IsRight :
        (d : JpegRenditionSetting) (name mime : Bytes) (before fs : List File)
        → look_up cfg.renditions cfg.default_ ≡ some d
        → is_some (look_up cfg.renditions name) ≡ true
        → is_image mime ≡ true
        → content_of fs other ≡ content_of before other
        → content_of fs master_rendition ≡ content_of before master_rendition
        → IsRight (make_rendition render written deduce cfg name before (some (fs, mime))) before
    unfolding make_rendition respond
    make_image-IsRight d name mime before fs h configured image kept same =
        let (setting, e, is_wanted) = find_returns 0 cfg name d h in
        elim (generated mime setting name other fs (apart name other configured unknown)) [
          | inl (made, g, k) ↦ (
            made,
            returned (opened name made),
            rw (make_rendition, image, e, g) refl,
            opened-IsAnswer before name made (inr configured),
            k ∙ kept,
          )
          | inr (g, (master, there, threw)) ↦ (
            fs,
            thrown,
            rw (make_rendition, image, e, g) refl,
            inr (mime, setting, master, sym same ∙ there, threw),
            kept,
          )
        ]

    make_rendition-IsRight :
        (d : JpegRenditionSetting) (name mime : Bytes) (before fs : List File)
        → look_up cfg.renditions cfg.default_ ≡ some d
        → is_some (look_up cfg.renditions name) ≡ true
        → content_of fs other ≡ content_of before other
        → content_of fs master_rendition ≡ content_of before master_rendition
        → IsRight (make_rendition render written deduce cfg name before (some (fs, mime))) before
    unfolding make_rendition
    make_rendition-IsRight d name mime before fs h configured kept same =
        elim (Bool-cases (is_image mime)) [
          | inl image ↦ make_image-IsRight d name mime before fs h configured image kept same
          | inr no_picture ↦ (
            fs,
            returned (opened name fs),
            rw (make_rendition, no_picture) refl,
            opened-IsAnswer before name fs (inr configured),
            kept,
          )
        ]

    described-IsRight :
        (d : JpegRenditionSetting) (name : Bytes) (fs : List File)
        → look_up cfg.renditions cfg.default_ ≡ some d
        → is_some (look_up cfg.renditions name) ≡ true
        → IsRight
            (make_rendition render written deduce cfg name fs
              (update_meta render written deduce cfg fs))
            fs
    unfolding make_rendition update_meta write content_of respond
    described-IsRight d name fs h configured =
        elim (Option-cases (deduce (mapped fs master_rendition))) [
          | inl threw ↦ (fs, thrown, rw (update_meta, threw) refl, inl threw, refl)
          | inr ((meta, mime), e) ↦
              rw (update_meta, e)
                (make_rendition-IsRight d name mime fs (write meta_file meta fs) h configured
                  (rw no_meta refl) refl)
        ]

    rendition-IsRight :
        (d : JpegRenditionSetting) (name : Bytes) (fs : List File)
        → look_up cfg.renditions cfg.default_ ≡ some d
        → IsRight (rendition render written deduce cfg name fs) fs
    unfolding rendition mapped
    rendition-IsRight d name fs h = elim (Bool-cases (bytes_eq name master_rendition)) [
      | inl y ↦ (
        fs,
        returned (mapped fs master_rendition),
        rw (rendition, y) refl,
        mapped-IsAnswer fs master_rendition fs (content_of fs master_rendition) refl (inl refl)
            (inl refl),
        refl,
      )
      | inr n ↦
          let configured = chosen-IsServed d name h in
          elim (Bool-cases (is_some (content_of fs (chosen cfg name)))) [
            | inl there ↦ (
              fs,
              returned (opened (chosen cfg name) fs),
              rw (rendition, n, there) refl,
              opened-IsAnswer fs (chosen cfg name) fs (inr configured),
              refl,
            )
            | inr missing ↦
                let (made, r, e, answered, kept) =
                  described-IsRight d (chosen cfg name) fs h configured in
                (made, r, rw (rendition, n, missing) e, answered, kept)
          ]
    ]

    -- If the default rendition is configured, a request for a blob comes to an end. It is a bad request
    -- only if the name of the rendition has something else than letters and digits. Otherwise it is
    -- answered with what is in the master or in a configured rendition; it is not found only if the master
    -- is not there or one of these is empty; or an exception leaves it without
    -- an answer, and then it comes of deducing what is known of the master or of rendering it, since the
    -- server catches none of OpenCV there. No file is changed but those of configured renditions and the
    -- one with what is known of the blob.
    pub response-IsAnswer :
        (d : JpegRenditionSetting) (name : Bytes) (fs : List File)
        → look_up cfg.renditions cfg.default_ ≡ some d
        → (after : List File) × (answer : Response) × (response render written deduce cfg name fs
            ≡ some (after, answer))
          × (((is_alnum name ≡ false) × (answer ≡ bad_request)) ⊎ IsAnswer fs after answer)
          × (content_of after other ≡ content_of fs other)
    unfolding response respond
    response-IsAnswer d name fs h = elim (Bool-cases (is_alnum name)) [
      | inl y ↦
          let (made, r, e, answered, kept) = rendition-IsRight d name fs h in
          (made, respond r, rw (response, y, e) refl, inr answered, kept)
      | inr n ↦ (fs, bad_request, rw (response, n) refl, inl (n, refl), refl)
    ]
