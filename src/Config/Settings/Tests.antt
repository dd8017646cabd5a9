-- ===== src/Config/Settings/Tests.antt =====
-- Settings that can be constructed.
use whatsapp_automatic_plann.Config.Settings.Bounds.{IsInBounds, settings_of-IsInBounds}
use whatsapp_automatic_plann.Config.Settings.Samples.{read, expected, accepted}

settings_of-IsInBounds_example : IsInBounds expected
settings_of-IsInBounds_example = settings_of-IsInBounds read accepted
