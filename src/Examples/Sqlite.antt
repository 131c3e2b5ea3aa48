-- ===== src/Examples/Sqlite.antt =====
-- Witness for src/sqlite/depth.rs: a frame in VXLAN.
use dsct.Base.{◌≡◌, refl, List, [], ◌∷◌}
use dsct.Packet.{Bytes}
use dsct.Sqlite.Depth.{ethernet, ipv4, compute_depths}
use dsct.Sqlite.Nested.{Fine, compute_depths-Nested}

abbrev udp : Bytes
udp = b'U' ∷ b'D' ∷ b'P' ∷ []

abbrev tunnel : List Bytes
tunnel = ethernet ∷ ipv4 ∷ udp ∷ ethernet ∷ ipv4 ∷ ipv4 ∷ []

tunnel_depths :
    compute_depths tunnel
    ≡ (ethernet, 0) ∷ (ipv4, 0) ∷ (udp, 0) ∷ (ethernet, 1) ∷ (ipv4, 1) ∷ (ipv4, 2) ∷ []
unfolding compute_depths
tunnel_depths = refl

compute_depths-Nested_example : Fine [] tunnel (compute_depths tunnel)
compute_depths-Nested_example = compute_depths-Nested tunnel
