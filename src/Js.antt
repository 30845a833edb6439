-- ===== src/Js.antt =====
-- What the web interface's source uses of JavaScript: texts, numbers, dynamic values and `sort`.
pub mod Text
pub mod Decimal
pub mod Number
pub mod Value
pub mod Sort
