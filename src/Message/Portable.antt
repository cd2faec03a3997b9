-- ===== src/Message/Portable.antt =====
-- What two hosts of different byte order send for one message (lo_message_serialise of
-- src/message.c).
use liblo.Base.{
  ◌≡◌, ◌∙◌, ◌↔◌, refl, sym, ap, ap₂, true, false, none, List, [], ◌∷◌, ◌++◌, Bytes, length, drop,
  drop-append_self,
}
use liblo.Osc.Padding.{IsText, padded}
use liblo.Argument.{Arg, host_bytes, wire_bytes}
use liblo.Message.State.{Message}
use liblo.Message.Serialise.{lo_message_serialise}
use liblo.Message.Values.{Holds, type_chars}
use liblo.Message.Wire.{AllArgs, wire_data, message_bytes, lo_message_serialise-none}

-- Every character is NUL.
abbrev pub NoChars : List Arg → Type 0
NoChars [] = Unit
NoChars (Arg.char c ∷ args) = (c ≡ 0) × NoChars args
NoChars (_ ∷ args) = NoChars args

cancel : (a x y : Bytes) → a ++ x ≡ a ++ y → x ≡ y
cancel a x y e = sym (drop-append_self a x) ∙ ap (drop (length a)) e ∙ drop-append_self a y

wire_data_iff : (args : List Arg) → (wire_data true args ≡ wire_data false args) ↔ NoChars args
unfolding wire_data wire_bytes
wire_data_iff [] = (λ _. tt, λ _. refl)
wire_data_iff (Arg.char c ∷ args) =
    let rest = wire_data_iff args in
    (
      λ e.
          let nul : c ≡ 0 = cc in
          let same : wire_data true args ≡ wire_data false args = cc in (nul, rest.0 same),
      λ (nul, chars).
          ap₂ (λ x w. x ∷ 0 ∷ 0 ∷ 0 ∷ w) nul (rest.1 chars)
          ∙ ap (λ x. 0 ∷ 0 ∷ 0 ∷ x ∷ wire_data false args) (sym nul),
    )
wire_data_iff (Arg.int32 n ∷ args) =
    let b = host_bytes true (Arg.int32 n) in
    let rest = wire_data_iff args in
    (λ e. rest.0 (cancel b _ _ e), λ chars. ap (λ w. b ++ w) (rest.1 chars))
wire_data_iff (a ∷ args) =
    let b = host_bytes true a in
    let rest = wire_data_iff args in
    (λ e. rest.0 (cancel b _ _ e), λ chars. ap (λ w. b ++ w) (rest.1 chars))

-- Two hosts of different byte order, whose messages hold the same arguments, send the same bytes for
-- them exactly if every argument that is a character is NUL.
pub lo_message_serialise_portable :
    (m m' : Message) (path : Bytes) (args : List Arg)
    → Holds true m args
    → Holds false m' args
    → AllArgs args
    → IsText path
    → (lo_message_serialise true m path none ≡ lo_message_serialise false m' path none)
      ↔ NoChars args
unfolding message_bytes
lo_message_serialise_portable m m' path args held held' valid text =
    let of_big = lo_message_serialise-none true m path args held valid text in
    let of_little = lo_message_serialise-none false m' path args held' valid text in
    let data_iff = wire_data_iff args in
    let types = padded (b',' ∷ type_chars args) in
    (
      λ e. data_iff.0 (cancel types _ _ (cancel (padded path) _ _ (sym of_big ∙ e ∙ of_little))),
      λ chars. of_big ∙ ap (λ w. padded path ++ (types ++ w)) (data_iff.1 chars) ∙ sym of_little,
    )
