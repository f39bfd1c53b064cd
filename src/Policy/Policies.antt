-- ===== src/Policy/Policies.antt =====
-- The policies of policy/SortInputPolicy.cpp and policy/EchoPolicy.cpp.
use client_server.Base.{[], ◌∷◌, ◌++◌, Option, none, some, refl, Bytes, codes, drop, length}
use client_server.Ad.{AdBook, Money}
use client_server.Charconv.{Charconv}
use client_server.Transaction.{Cache, empty_cache, process_request_sort}
use client_server.Transaction.Reply.{
  reply, IsFresh, empty_cache-IsFresh, process_request_sort-reply,
}
use client_server.Policy.Interface.{Policy}

abbrev pub sort_input_policy : ⦃conv : Charconv⦄ ⦃m : Money⦄ → AdBook → Policy
sort_input_policy book = record {
  Kept = Cache;
  start = empty_cache;
  respond =
      λ request diagnostics c. process_request_sort book request.size_key request diagnostics c;
  answer = λ request diagnostics. reply book request.size_key request.input diagnostics;
  IsFresh = IsFresh book;
  start_fresh = empty_cache-IsFresh book;
  respond_fresh = λ request diagnostics c f.
      process_request_sort-reply book request.size_key request diagnostics c f;
}

-- Boost.Regex is the argument `search`: the first match of a pattern in a text. The match of the
-- pattern stands at the start of the text.
unfoldable pub echo : (Bytes → Bytes → Option Bytes) → Bytes → Bytes
echo search input =
    let buffer = input ++ b'\n' ∷ [] in
    elim (search (codes "^\\[\\d+\\]") buffer) [
      | none ↦ buffer
      | some matched ↦ drop (length matched) buffer
    ]

-- The buffer of a thread is written before it is read.
abbrev pub echo_policy : (Bytes → Bytes → Option Bytes) → Policy
echo_policy search = record {
  Kept = Bytes;
  start = [];
  respond = λ request diagnostics buffer. (echo search request.input, request.input ++ b'\n' ∷ []);
  answer = λ request diagnostics. echo search request.input;
  IsFresh = λ buffer. Unit {0};
  start_fresh = tt;
  respond_fresh = λ request diagnostics buffer f. (refl, tt);
}
