-- ===== src/Retention/Content/Latest.antt =====
-- What the purges of data packages and mission changes leave alone.
use c4raven_server.Prelude.{ℕ, String, ◌≡◌, Option, List, arith, filter}
use c4raven_server.Retention.Purge.Deleting.{HasDistinctKeys}
use c4raven_server.Retention.Types.{Run}
use c4raven_server.Retention.Types.Kept.{filter-purge_where}
use c4raven_server.Retention.Content.{
  DataPackage, is_installed, is_doomed_package, paths, purge_data_packages,
}

-- On rows with distinct ids, packages that are set to install, or that a certificate names, are
-- all still there after the purge, whatever commits fail and however far it comes.
pub purge_data_packages-installed :
    (path_of : String → Option String) (run : Run) (certificates : List (Option ℕ)) (cutoff : ℕ)
    (packages : List DataPackage)
    → HasDistinctKeys (λ (p : DataPackage). p.id) packages
    → filter
        (is_installed certificates)
        (purge_data_packages path_of run certificates cutoff packages).rows
      ≡ filter (is_installed certificates) packages
unfolding purge_data_packages is_doomed_package
purge_data_packages-installed path_of run certificates cutoff packages h =
    filter-purge_where run _ _ (paths path_of) packages h (is_installed certificates)
      (λ p e. ground arith)
