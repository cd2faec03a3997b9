-- ===== src/Examples/Addresses.antt =====
-- The theorems on addresses and URLs (src/address.c) at concrete inputs, and runs of the code.
use liblo.Base.{◌≡◌, refl, some, codes, arith, ok}
use liblo.Address.Scan.{is_digit, not_in}
use liblo.Address.State.{udp, tcp, Address, lo_address_new_with_proto}
use liblo.Address.Url.{text, lo_url_get_port, lo_address_new_from_url, lo_address_get_url}
use liblo.Address.Ports.{lo_address_new_from_url-get_url, lo_url_get_port_of_quoted}

abbrev connected : Address
connected = record (lo_address_new_with_proto tcp (some (codes "desk")) (some (codes "9000"))) {
  socket = some 5;
}

lo_address_new_from_url-get_url_example :
    lo_address_new_from_url (lo_address_get_url tcp (codes "desk") (codes "9000"))
    ≡ ok (some (lo_address_new_with_proto tcp (some (codes "desk")) (some (codes "9000"))))
unfolding not_in is_digit
lo_address_new_from_url-get_url_example =
    lo_address_new_from_url-get_url tcp (codes "desk") (codes "9000") (ground arith)
      (ground arith, (refl, (refl, (refl, (refl, tt)))))
      (ground arith, (refl, (refl, (refl, (refl, tt)))))

-- The URL is osc.udp://[fe80::1]:9000/.
lo_url_get_port_of_quoted_example :
    lo_url_get_port (lo_address_get_url udp (codes "fe:80::1") (codes "9000")) ≡ text (codes "80")
unfolding not_in is_digit
lo_url_get_port_of_quoted_example =
    lo_url_get_port_of_quoted udp (codes "fe") (codes "80") (codes ":1") (codes "9000") b':'
      (ground arith) (refl, (refl, tt)) (ground arith, (refl, (refl, tt))) refl
