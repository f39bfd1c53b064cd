-- ===== src/Tests/Work.antt =====
-- Tasks and policies at concrete inputs.
use client_server.Base.{true, codes}
use client_server.Task.{empty_task, update}
use client_server.Task.Update.{IsUpdated, update-IsUpdated}
use client_server.Tests.Wire.{plain_header}

update-IsUpdated_example :
    IsUpdated true (update true plain_header (codes "one\ntwo\nthree") empty_task)
update-IsUpdated_example = update-IsUpdated true plain_header (codes "one\ntwo\nthree") empty_task
