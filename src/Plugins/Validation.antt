-- ===== src/Plugins/Validation.antt =====
-- `EnvironmentValidator` of src/quads/plugins/builtin/validators/environment.py.
pub mod Calls
pub mod Tests
pub mod Validate
pub mod Noted
pub mod Testing
pub mod Granted
pub mod Passing
pub mod Ending
pub mod Validated
