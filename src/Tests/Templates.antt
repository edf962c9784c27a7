-- ===== src/Tests/Templates.antt =====
-- Templates, and the scheduler of requests.
use hearty_rabbit.Prelude.{◌≡◌, [], ◌∷◌, ◌++◌, Bytes, codes, arith}
use hearty_rabbit.Scheduler.{Scheduler, IsBusy, add, add_sound}

abbrev page : Bytes
page = codes "<head><script></script></head>"

abbrev needle : Bytes
needle = codes "<script></script>"

-- Two are outstanding and one waits.
abbrev full : Scheduler
full = record { limit = 2; outstanding = 4 ∷ 3 ∷ []; pending = 5 ∷ []; started = 3 ∷ 4 ∷ [] }

add_sound_example :
    IsBusy (add 6 full)
    × ((add 6 full).limit ≡ 2)
    × ((add 6 full).started ++ (add 6 full).pending ≡ 3 ∷ 4 ∷ 5 ∷ 6 ∷ [])
add_sound_example = add_sound 6 full (omega arith)
