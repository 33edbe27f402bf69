-- ===== src/Handshake/Exchange.antt =====
-- Who is let in.
use lemoniscate.Common.{ℕ, ◌<◌, ◌≡◌, refl, arith, ◌&&◌, leb, le→leb, if◌then◌else◌}
use lemoniscate.Common.{List, ◌∷◌, ◌++◌, length, ok, fail, ◌>>=◌}
use lemoniscate.Conn.{conn_read_full, conn_write_all}
use lemoniscate.Wire.{Bytes4, list4, eq4, bytes2_at, bytes4_at, first2, first4}
use lemoniscate.Handshake.{
  proto_trtp, proto_hotl, server_handshake_response, client_handshake, parse, valid, read_full,
  write_full, perform_server, perform_server_conn, perform_client,
}

-- Of a peer that sends 12 bytes or more and takes `room` bytes of an answer, the server lets in
-- exactly those whose first 8 are TRTP and HOTL, whatever the versions, and that take the 8 bytes of
-- the answer; it reads no further than the 12 bytes. Both variants of the server decide this way.
pub perform_server_lem :
    (p s : Bytes4) (v w x y : ℕ) (rest : List ℕ) (room : ℕ)
    → (perform_server (list4 p ++ (list4 s ++ (v ∷ w ∷ x ∷ y ∷ rest))) room ≡ (
        if eq4 p proto_trtp && eq4 s proto_hotl && leb 8 room
        then ok (server_handshake_response, rest)
        else fail))
      × (perform_server_conn (list4 p ++ (list4 s ++ (v ∷ w ∷ x ∷ y ∷ rest))) room ≡ (
          if eq4 p proto_trtp && eq4 s proto_hotl && leb 8 room
          then ok (server_handshake_response, rest)
          else fail))
unfolding perform_server perform_server_conn parse valid read_full write_full conn_read_full
    conn_write_all bytes2_at bytes4_at first2 first4
perform_server_lem p s v w x y rest room =
    rw (le→leb 12 (length (list4 p ++ (list4 s ++ (v ∷ w ∷ x ∷ y ∷ rest)))) (omega arith))
      (ground arith, ground arith)

-- A peer that closes the connection before it has sent 12 bytes is refused.
perform_server_short :
    (input : List ℕ) (room : ℕ) → length input < 12 → perform_server input room ≡ fail
unfolding perform_server read_full
perform_server_short input room h = ground arith

-- A client and a server that talk to each other both succeed, and leave unread what the other side
-- sends next.
pub perform_client-perform_server :
    (more later : List ℕ)
    → (perform_server (client_handshake ++ more) 8 ≡ ok (server_handshake_response, more))
      × ((perform_server (client_handshake ++ more) 8 >>= λ (reply, rest).
            perform_client (reply ++ later) 12)
          ≡ ok (client_handshake, later))
unfolding perform_client read_full write_full
perform_client-perform_server more later =
    let served : perform_server (client_handshake ++ more) 8
        ≡ ok (server_handshake_response, more) =
      unfold eq4 in (perform_server_lem proto_trtp proto_hotl 0 1 0 2 more 8).0 in
    (served, rw (served, le→leb 8 (length (server_handshake_response ++ later)) (omega arith)) refl)
