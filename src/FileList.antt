-- ===== src/FileList.antt =====
-- kernel/FileList: the files offered to peers (SendFileList) and those that peers sent
-- (RecvFileList), each under a number that stands for the file in a chat text.
pub mod Sent
pub mod Received
pub mod Numbering
pub mod Downloads
