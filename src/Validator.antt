-- ===== src/Validator.antt =====
-- packages/backend/src/common/utils/variable-validator.ts. JavaScript numbers and regular expressions
-- are the parameter `js`.
pub mod Rules
pub mod Variables
pub mod Meaning
pub mod Reading
pub mod Accepts
pub mod Servers
