-- ===== src/Config/Load.antt =====
-- Load of internal/config/config.go, from the decoded file on: `decoded` is the configuration that
-- os.ReadFile and the JSON decoder give where neither fails.
pub mod Sound
pub mod Loads
use healthd.Common.{String, Option, none, some}
use healthd.Platform.{Platform}
use healthd.Config.Error.{ConfigError, Result, ok, err, ◌>>=◌, ◌>>◌}
use healthd.Config.{Config}
use healthd.Config.Resolve.{resolve_profiles}
use healthd.Config.Defaults.{apply_defaults}
use healthd.Config.Validate.{validate}

module _ (go : Platform) (parse_url : String → Option (String × String)) where
  unfoldable pub load : Config go → Result (Config go)
  unfolding resolve_profiles apply_defaults validate
  load decoded = do
    c ← resolve_profiles go decoded
    validate go parse_url (apply_defaults go c)
    ok (apply_defaults go c)
