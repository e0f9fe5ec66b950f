-- ===== src/Approval/Heap/Reopens.antt =====
-- approval/store.go, Create: what it does to a record that holds the pointer it is given.
use authzen.Approval.Heap.{Heap}
