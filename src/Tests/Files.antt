-- ===== src/Tests/Files.antt =====
-- The files of a blob: the first request for a rendition makes it.
use hearty_rabbit.Prelude.{◌≡◌, ◌⊎◌, false, refl, List, [], ◌∷◌, Option, some, Bytes, codes, take}
use hearty_rabbit.Renditions.{JpegRenditionSetting, initial, look_up}
use hearty_rabbit.Renditions
use hearty_rabbit.Renditions.Served
use hearty_rabbit.Renditions.Served.{File, Response, Rendered, rendered, content_of, response}
use hearty_rabbit.Renditions.Answered.{IsAnswer, response-IsAnswer}

abbrev folder : List File
folder = record { name = codes "master"; content = codes "JFIF" } ∷ []

abbrev render : Bytes → JpegRenditionSetting → Bytes → Rendered
render mime setting image = rendered image

abbrev deduce : Option Bytes → Option (Bytes × Bytes)
deduce image = some (codes "{}", codes "image/jpeg")

-- The disk is full after two bytes.
abbrev written : Bytes → Option Bytes
written bytes = some (take 2 bytes)

response-IsAnswer_example :
    (after : List File) × (answer : Response) × (response render written deduce initial
        (codes "2048x2048")
        folder
      ≡ some (after, answer))
    × (((Served.is_alnum (codes "2048x2048") ≡ false) × (answer ≡ Response.bad_request))
        ⊎ IsAnswer render written deduce initial folder after answer)
    × (content_of after (codes "master") ≡ content_of folder (codes "master"))
unfolding look_up
response-IsAnswer_example =
    response-IsAnswer render written deduce initial (codes "master") refl refl _ (codes "2048x2048")
      folder refl

-- What was written in part is sent, now and from then on.
part_sent :
    response render written deduce initial (codes "2048x2048") folder
    ≡ some (
      record { name = codes "2048x2048"; content = codes "JF" }
          ∷ record { name = codes "meta.json"; content = codes "{}" }
          ∷ folder,
      Response.ok (codes "JF"),
    )
unfolding response Served.is_alnum content_of Renditions.valid look_up Served.is_image
    Renditions.find Served.write Served.mapped
part_sent = refl
