-- ===== src/Server/Outbounds/Tests.antt =====
-- The choice of a node, the tags and the list of outbounds, at an input.
use xray_web_maneger.Common.{
  ◌≡◌, ◌⊎◌, Text, codes, true, false, some, List, [], ◌∷◌, All, Some, arith,
}
use xray_web_maneger.Common.Int.{pos}
use xray_web_maneger.Server.Outbounds.{Outbound, OutboundStatusData, find_best}
use xray_web_maneger.Server.Outbounds.Fastest.{
  is_measured, IsFastest, first_candidate, find_best-IsFastest,
}

abbrev three_nodes : List OutboundStatusData
three_nodes =
    record { tag = codes "direct"; alive = true; delay = pos 1 }
    ∷ record { tag = codes "slow"; alive = true; delay = pos 90 }
    ∷ record { tag = codes "fast"; alive = true; delay = pos 20 }
    ∷ []

find_best_example :
    Some
      (IsFastest (codes "direct" ∷ []) three_nodes (find_best (codes "direct" ∷ []) three_nodes))
      three_nodes
    ⊎ (All (λ x. is_measured (codes "direct" ∷ []) x ≡ false) three_nodes
        × (find_best (codes "direct" ∷ []) three_nodes
            ≡ first_candidate (codes "direct" ∷ []) three_nodes))
find_best_example = find_best-IsFastest (codes "direct" ∷ []) three_nodes (ground arith)

abbrev same_case : Text → Text
same_case s = s

abbrev two_outbounds : List Outbound
two_outbounds =
    record { tag = codes "out"; settings = some (codes "xray.proxy.vless.Config") }
    ∷ record { tag = codes "direct"; settings = some (codes "xray.proxy.freedom.Config") }
    ∷ []
