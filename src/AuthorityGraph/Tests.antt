-- ===== src/AuthorityGraph/Tests.antt =====
-- The authority graph's theorems at concrete inputs.
use agentic_os.Base.{
  ℕ, ◌≤◌, ◌<◌, ◌≡◌, refl, List, [], ◌∷◌, ◌++◌, true, false, not, ◌&&◌, none, some, arith, length,
}
use agentic_os.AuthorityGraph.{
  Graph, Grant, Principal, pci_device, same_principal, Certificate, revoke, is_revoked, reaches,
  is_reachable, project_page_table, project_iommu_table, checksum_graph,
}
use agentic_os.AuthorityGraph.Reach.{any_live}
use agentic_os.AuthorityGraph.Projection.{AllFit, covered, tables-is_reachable, revoke-tables}
use agentic_os.AuthorityGraph.Certificates.{writable}

abbrev device : Principal
device = pci_device 0 3 0

abbrev dma_grant : Grant
dma_grant = record {
  principal = device;
  phys_base = 65536;
  len = 5000;
  writable = true;
  executable = false;
}

abbrev one_grant : Graph
one_grant = none ∷ some dma_grant ∷ []

one_grant-AllFit : AllFit one_grant
one_grant-AllFit = (omega arith, tt)

tables-is_reachable_example :
    let tables = project_page_table one_grant device 8 ++ project_iommu_table one_grant device 8 in
    (length tables ≤ 8)
    × (covered tables 70000 ≡ true → is_reachable one_grant device 70000 ≡ true)
    × (length tables < 8 → is_reachable one_grant device 70000 ≡ true → covered tables 70000 ≡ true)
tables-is_reachable_example = tables-is_reachable one_grant device 8 70000 one_grant-AllFit

only_dma :
    any_live (λ g. reaches device 70000 g && not (is_revoked device 65536 g)) one_grant ≡ false
unfolding any_live same_principal
only_dma = refl

revoke-tables_example :
    let after = (revoke one_grant device 65536).0 in
    covered (project_page_table after device 8 ++ project_iommu_table after device 8) 70000 ≡ false
revoke-tables_example = revoke-tables one_grant device 65536 8 70000 one_grant-AllFit only_dma

abbrev no_dma : Certificate
no_dma = record { principal = device; phys_page = 4096; graph_checksum = checksum_graph one_grant }

abbrev attempts : List ℕ
attempts = 4096 ∷ 8192 ∷ 4096 ∷ []
