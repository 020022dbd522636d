-- ===== src/Relay/Service.antt =====
-- backend/relay/relay.go: service names.
use roxey.Base.{Bool, Bytes}
use roxey.Std.Label.{dashed, label_matches}

-- `ValidateService`: `^[a-z0-9]([a-z0-9-]{0,38}[a-z0-9])?$`
abbrev pub validate_service : Bytes → Bool
validate_service service = label_matches dashed 38 service
