-- ===== src/Request.antt =====
-- Task.h: a request and its size key, and the order of the keys.
use client_server.Base.{
  [], ℕ, Bool, true, false, ◌≡◌, ltb, ◌==◌, ◌&&◌, if◌then◌else◌, Bytes, arith, StrictOrder, ◌↔◌,
}

-- `std::tuple<unsigned, unsigned>`: width and height.
pub record SizeTuple : Type 0 where
  pub width : ℕ
  pub height : ℕ

abbrev pub zero_size : SizeTuple
zero_size = record { width = 0; height = 0 }

unfoldable pub size_eq : SizeTuple → SizeTuple → Bool
size_eq a b = a.width == b.width && a.height == b.height

pub size_eq_iff : (a b : SizeTuple) → (size_eq a b ≡ true) ↔ (a ≡ b)
unfolding size_eq
size_eq_iff a b = ground arith

-- `operator<` of tuples.
unfoldable pub size_lt : SizeTuple → SizeTuple → Bool
size_lt a b =
    if ltb a.width b.width
    then true
    else if ltb b.width a.width
    then false
    else ltb a.height b.height

pub size_order : StrictOrder size_lt
unfolding size_lt
size_order = record { asym = λ a b h. ground arith; chain = λ a b c h k. ground arith }

pub record Request : Type 0 where
  pub size_key : SizeTuple
  pub input : Bytes

abbrev pub empty_request : Request
empty_request = record { size_key = zero_size; input = [] }

-- `operator=(std::string_view)` leaves the size key.
abbrev pub assign_input : Request → Bytes → Request
assign_input r text = record r { input = text }
