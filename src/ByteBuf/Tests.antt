-- ===== src/ByteBuf/Tests.antt =====
-- Buffers at concrete bytes.
use zylib.Prelude.{◌≡◌, refl, some, List, [], ◌∷◌, arith}
use zylib.ByteBuf.{ByteBuf, shrink_to_fit, read_string, returned}
use zylib.ByteBuf.Queue.{Valid, content, shrink_to_fit-content}
use zylib.ByteBuf.Numbers.{Item, read_numbers, write_numbers, values, read_numbers-write_numbers}
use zylib.ByteBuf.Strings.{read_string-content}

-- Four bytes, of which one has been read.
abbrev part_read : ByteBuf
part_read = record { rpos = 1; wpos = 4; storage = 65 ∷ 66 ∷ 67 ∷ 68 ∷ [] }

part-Valid : Valid part_read
part-Valid = record { ordered = omega arith; within = omega arith }

shrink_to_fit-content_example :
    (c : ByteBuf) × (shrink_to_fit part_read ≡ returned c)
    × Valid c
    × (content c ≡ content part_read)
    × (c.rpos ≡ 0)
shrink_to_fit-content_example = shrink_to_fit-content part_read part-Valid

read_string-content_example :
    (c : ByteBuf) × (read_string part_read ≡ some (returned (content part_read, c)))
    × Valid c
    × (content c ≡ [])
read_string-content_example = read_string-content part_read part-Valid refl

-- All four bytes read.
abbrev all_read : ByteBuf
all_read = record part_read { rpos = 4 }

all_read-Valid : Valid all_read
all_read-Valid = record { ordered = omega arith; within = omega arith }

nothing_left : content all_read ≡ []
unfolding content
nothing_left = refl

-- A uint16_t and a uint32_t.
abbrev two_items : List Item
two_items = (2, 258) ∷ (4, 100000) ∷ []

read_numbers-write_numbers_example :
    (c : ByteBuf) × (read_numbers two_items (write_numbers two_items all_read)
      ≡ returned (values two_items, c))
    × Valid c
    × (content c ≡ [])
read_numbers-write_numbers_example =
    read_numbers-write_numbers two_items all_read all_read-Valid nothing_left
      (omega arith, (omega arith, tt))
