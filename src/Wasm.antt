-- ===== src/Wasm.antt =====
-- libs/wasm: the WebAssembly runtime that untrusted tools run in.
pub mod Leb
pub mod Module
