-- ===== src/Sqlite/Depth.antt =====
-- src/sqlite/depth.rs: how deep in tunnels a layer is.
use dsct.Base.{ℕ, ◌+◌, Bool, false, ◌&&◌, ◌||◌, List, [], ◌∷◌, if◌then◌else◌}
use dsct.Packet.{Bytes}
use dsct.Filter.Names.{items_match}

abbrev pub ethernet : Bytes
ethernet = b'E' ∷ b't' ∷ b'h' ∷ b'e' ∷ b'r' ∷ b'n' ∷ b'e' ∷ b't' ∷ []

abbrev pub ipv4 : Bytes
ipv4 = b'I' ∷ b'P' ∷ b'v' ∷ b'4' ∷ []

abbrev pub ipv6 : Bytes
ipv6 = b'I' ∷ b'P' ∷ b'v' ∷ b'6' ∷ []

unfoldable pub is_l2 : Bytes → Bool
unfolding items_match
is_l2 name = items_match ethernet name

unfoldable pub is_l3 : Bytes → Bool
unfolding items_match
is_l3 name = items_match ipv4 name || items_match ipv6 name

-- Whether a layer is one more than a depth holds that has these layers already.
unfoldable pub starts_depth : Bool → Bool → Bytes → Bool
unfolding is_l2 is_l3
starts_depth seen_l2 seen_l3 name = is_l2 name && (seen_l2 || seen_l3) || is_l3 name && seen_l3

-- The loop, each depth beside its name.
unfoldable pub depths_from : ℕ → Bool → Bool → List Bytes → List (Bytes × ℕ)
unfolding starts_depth
depths_from depth seen_l2 seen_l3 [] = []
depths_from depth seen_l2 seen_l3 (name ∷ names) =
    let deeper = depths_from (depth + 1) (is_l2 name) (is_l3 name) names in
    let same = depths_from depth (seen_l2 || is_l2 name) (seen_l3 || is_l3 name) names in
    if starts_depth seen_l2 seen_l3 name then (name, depth + 1) ∷ deeper else (name, depth) ∷ same

unfoldable pub compute_depths : List Bytes → List (Bytes × ℕ)
unfolding depths_from
compute_depths names = depths_from 0 false false names
