-- ===== src/Handshake/Tests.antt =====
-- Instances of the theorems on the handshake.
use lemoniscate.Common.{◌≡◌, ◌&&◌, leb, if◌then◌else◌, [], ◌∷◌, ◌++◌, ok, fail}
use lemoniscate.Wire.{eq4, list4}
use lemoniscate.Handshake.{
  proto_trtp, proto_hotl, server_handshake_response, perform_server, perform_server_conn,
}
use lemoniscate.Handshake.Exchange.{perform_server_lem}

perform_server_lem_example :
    (perform_server (list4 proto_trtp ++ (list4 (1, 2, 3, 4) ++ (0 ∷ 1 ∷ 0 ∷ 2 ∷ 9 ∷ []))) 8 ≡ (
      if eq4 proto_trtp proto_trtp && eq4 (1, 2, 3, 4) proto_hotl && leb 8 8
      then ok (server_handshake_response, 9 ∷ [])
      else fail))
    × (perform_server_conn (list4 proto_trtp ++ (list4 (1, 2, 3, 4) ++ (0 ∷ 1 ∷ 0 ∷ 2 ∷ 9 ∷ []))) 8
        ≡ (if eq4 proto_trtp proto_trtp && eq4 (1, 2, 3, 4) proto_hotl && leb 8 8
            then ok (server_handshake_response, 9 ∷ [])
            else fail))
perform_server_lem_example = perform_server_lem proto_trtp (1, 2, 3, 4) 0 1 0 2 (9 ∷ []) 8
