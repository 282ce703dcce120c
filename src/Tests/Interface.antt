-- ===== src/Tests/Interface.antt =====
-- Runs of src/params.rs, src/thread.rs and src/lib.rs.
use ihs_wl_server.Prelude.{
  zero, suc, ℕ, ◌≤◌, ◌≡◌, ◌≢◌, ◌⊎◌, ◌<◌, Option, none, refl, true, false, List, [], ◌∷◌, ◌++◌, some,
  arith, length,
}
use ihs_wl_server.Params.{Number, key_app_id, key_capabilities}
use ihs_wl_server.Params.Codec.{Value, int, string, decode_map, is_utf8}
use ihs_wl_server.Params.Roundtrip.{AreEncodable, encode_map, newest_first, decode_map-encode_map}
use ihs_wl_server.Lifecycle.{
  Code, never_started, ready, refused, io, ok, Bind, bound, already_in_use,
}
use ihs_wl_server.Lifecycle.Threads.{IsAccounted, Call, starts, stops, ends, run, run-IsAccounted}
use ihs_wl_server.Abi.{
  PointerEvent, sized, ihs_wl_pointer, code, value, positive, nought, ihs_wl_activation_token,
  code_value,
}
use ihs_wl_server.Abi.Checked.{
  asks, pointers, enter, Passes, enter-Passes, ihs_wl_activation_token_lem,
}

-- The app id "a", and the capability bits 0x105.
abbrev written : List (List ℕ × Value)
written =
    (key_app_id, string (97 ∷ []))
    ∷ (key_capabilities, int 261)
    ∷ (key_capabilities, int 18446744073709551615)
    ∷ []

is_text : is_utf8 0 0 0 key_app_id ≡ true
unfolding is_utf8
is_text = refl

is_a : is_utf8 0 0 0 (97 ∷ []) ≡ true
unfolding is_utf8
is_a = refl

is_text_2 : is_utf8 0 0 0 key_capabilities ≡ true
unfolding is_utf8
is_text_2 = refl

written-AreEncodable : AreEncodable written
written-AreEncodable = (
  (omega arith, is_text),
  (omega arith, is_a),
  ((omega arith, is_text_2), omega arith, ((omega arith, is_text_2), omega arith, tt)),
)

-- Three entries, two of them under one key, then a value of a kind that is not decoded.
decode_map-encode_map_example :
    (m : List (List ℕ × Value)) × (length m ≤ 1)
    × (decode_map (encode_map 1 written (12 ∷ 0 ∷ [])) ≡ some (m ++ newest_first written []))
decode_map-encode_map_example =
    decode_map-encode_map written 1 (12 ∷ 0 ∷ []) written-AreEncodable (omega arith)

abbrev pixels : Number → ℕ
pixels n = 1

-- A start, a thread that dies, a failed restart and another.
abbrev calls : List Call
calls = starts (ready 3) ∷ ends 1 ∷ starts (refused io) ∷ starts (ready 4) ∷ stops false ∷ []

never_started-IsAccounted : IsAccounted never_started
never_started-IsAccounted = record { once = λ t. ground arith; alone = λ t k. cc }

run-IsAccounted_example : IsAccounted (run calls never_started)
run-IsAccounted_example = run-IsAccounted calls never_started never_started-IsAccounted

abbrev two_taken : ℕ → Bind
two_taken zero = already_in_use
two_taken (suc zero) = already_in_use
two_taken (suc (suc n)) = bound

abbrev event : PointerEvent
event = record { kind = 1; x = positive; y = nought; axis_x = nought; axis_y = nought }

enter-Passes_example : Passes ok (asks 5 positive nought) (enter ok (asks 5 positive nought))
enter-Passes_example = enter-Passes ok (asks 5 positive nought)

-- The cursor is what a pointer event is answered with.
moves : (enter ok (pointers 3 40 5 (some (40, event)))).1 ≡ value 3
unfolding enter ihs_wl_pointer sized
moves = refl

token_written :
    ihs_wl_activation_token ok true 3 (some (97 ∷ 98 ∷ [])) ≡ (some (97 ∷ 98 ∷ 0 ∷ []), value 2)
unfolding ihs_wl_activation_token code_value
token_written = refl

-- The reply, which is one byte too long for its buffer with the NUL.
abbrev reply : Option (List ℕ)
reply = some (97 ∷ 98 ∷ [])

ihs_wl_activation_token_lem_example :
    let r = ihs_wl_activation_token ok true 2 reply in
    ((token : List ℕ) × (true ≡ true)
      × (ok ≡ ok)
      × (reply ≡ some token)
      × (length token < 2)
      × (r ≡ (some (token ++ 0 ∷ []), value (length token))))
    ⊎ ((error : Code) × (r ≡ (none, code error))
        × (error ≢ ok)
        × ((true ≡ false)
            ⊎ (ok ≢ ok)
            ⊎ (reply ≡ none)
            ⊎ ((token : List ℕ) × (reply ≡ some token) × (2 ≤ length token))))
ihs_wl_activation_token_lem_example = ihs_wl_activation_token_lem ok true 2 reply
