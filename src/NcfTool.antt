-- ===== src/NcfTool.antt =====
-- src/ncftool.c, the interactive shell: its command table, tokenizer, line parser and handlers.
pub mod Command
pub mod Token
pub mod Parse
pub mod Run
