-- ===== src/Examples/Words.antt =====
-- The theorems on src/tools/oscsend.c at concrete inputs.
use liblo.Base.{◌≡◌, ◌↔◌, refl, inl, arith, true, false, some, List, [], ◌∷◌, Bytes, codes}
use liblo.Argument.{Arg, type_of}
use liblo.Message.{lo_message_new}
use liblo.Message.Values.{Holds, type_chars}
use liblo.Message.Wire.{AllArgs}
use liblo.Message.Varargs.{flag_of, built}
use liblo.Tools.Oscsend.{Reader, create_message}
use liblo.Tools.Reads.{IsReader}
use liblo.Tools.Words.{WordsFor, create_message_iff}
use liblo.Examples.Traffic.{receiver}

-- Every number reads as 7.
abbrev sevens : Reader
sevens = record {
  strtol = λ s. (7, true);
  strtoll = λ s. (7, true);
  strtof = λ s. (7, true);
  strtod = λ s. (7, true);
  hex = λ s. some 7;
  erange = λ i. false;
}

abbrev args : List Arg
args = Arg.int32 7 ∷ Arg.true_ ∷ Arg.string (codes "hello") ∷ []

abbrev words : List Bytes
words = codes "7" ∷ codes "hello" ∷ []

sevens-IsReader : IsReader sevens
sevens-IsReader = record { long = λ s. omega arith; hex_word = λ s n e. ground arith }

args-words : WordsFor sevens 0 args words
unfolding flag_of type_of
args-words = (
  codes "7",
  (
    codes "hello" ∷ [],
    refl,
    (refl, inl (omega arith, refl)),
    (codes "hello", ([], refl, refl, tt)),
  ),
)

create_message_iff_example :
    ((create_message receiver sevens (type_chars args ∷ words)
        ≡ some (built receiver lo_message_new args))
      ↔ ((as_ : List Arg) × (type_chars args ≡ type_chars as_)
          × WordsFor sevens 0 as_ words
          × (built receiver lo_message_new args ≡ built receiver lo_message_new as_)))
    × ((as_ : List Arg) → AllArgs as_ → Holds false (built receiver lo_message_new as_) as_)
create_message_iff_example =
    create_message_iff receiver sevens (type_chars args) words (built receiver lo_message_new args)
      (λ n. refl) sevens-IsReader
