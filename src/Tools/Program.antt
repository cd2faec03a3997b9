-- ===== src/Tools/Program.antt =====
-- The program of src/tools/oscsend.c, from its words to the message that it sends.
use liblo.Base.{◌≡◌, refl, false, some, List, ◌∷◌, Bytes}
use liblo.Argument.{Arg}
use liblo.Message.{Platform, Message, lo_message_new}
use liblo.Message.Values.{type_chars}
use liblo.Message.Varargs.{built}
use liblo.Address.State.{Address, lo_address_new, lo_address_set_ttl}
use liblo.Send.Data.{Network, lo_send_message_from}
use liblo.Tools.Oscsend.{Reader, create_message, has_scheme, exit_of, link_to, send_words, main}
use liblo.Tools.Reads.{IsReader}
use liblo.Tools.Words.{WordsFor, add_values-WordsFor}

create_message-WordsFor :
    (p : Platform) (r : Reader) (args : List Arg) (argv : List Bytes)
    → IsReader r
    → WordsFor r 0 args argv
    → create_message p r (type_chars args ∷ argv) ≡ some (built p lo_message_new args)
unfolding create_message
create_message-WordsFor p r args argv ok words =
    add_values-WordsFor p r 0 args argv lo_message_new ok words

send_words_made :
    (p : Platform) (r : Reader) (net : Network) (target : Address) (path : Bytes)
    (words : List Bytes) (m : Message)
    → create_message p r words ≡ some m
    → send_words p r net target (path ∷ words)
      ≡ exit_of (lo_send_message_from p.big net path m (link_to (lo_address_set_ttl target 1)))
unfolding send_words
send_words_made p r net target path words m made = rw (made, send_words) refl

-- With a host and a port, a path, and the types and words of some arguments, where the first word
-- has no "://" in it, the program sends the message of these arguments to the path at a UDP address
-- of the host and the port, with a time to live of 1, and its exit status is that of sending.
main_sends :
    (p : Platform) (r : Reader) (net : Network) (host port path : Bytes) (args : List Arg)
    (argv : List Bytes)
    → has_scheme host ≡ false
    → IsReader r
    → WordsFor r 0 args argv
    → let target = lo_address_set_ttl (lo_address_new (some host) (some port)) 1 in
      main p r net (host ∷ port ∷ path ∷ type_chars args ∷ argv)
      ≡ exit_of (lo_send_message_from p.big net path (built p lo_message_new args) (link_to target))
unfolding main
main_sends p r net host port path args argv plain ok words =
    rw (plain, main)
      (send_words_made p r net (lo_address_new (some host) (some port)) path _ _
        (create_message-WordsFor p r args argv ok words))
